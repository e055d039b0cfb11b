-- ===== src/State.antt =====
-- nc/state.py: the SQLite state of the runner. `Tables` has the schema, `Exec` the transactions,
-- and the other children one group of the methods of `State` each.
pub mod Tables
pub mod Exec
pub mod Keeps
pub mod Query
pub mod Rows
pub mod Tasks
pub mod Cancel
pub mod Proposals
pub mod Approve
pub mod Reviews
pub mod Feedback
pub mod Mail
pub mod Runs
pub mod Incidents
