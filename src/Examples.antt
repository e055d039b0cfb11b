-- ===== src/Examples.antt =====
-- Concrete inputs for the theorems of the development, and the data that they share.
pub mod Sample
mod StateRuns
mod TurnRuns
mod WireRuns
mod PlanRuns
mod ClientRuns
mod AcpRuns
mod StreamRuns
mod OwnerRuns
