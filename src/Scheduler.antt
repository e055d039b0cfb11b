-- ===== src/Scheduler.antt =====
-- nc/scheduler.py: which agent gets the next turn, what an outcome does to the state, and the loop.
pub mod Handlers
pub mod Verdict
pub mod Turn
pub mod Step
pub mod Pick
pub mod Escalate
pub mod Preflight
pub mod Loop
