-- ===== src/Operations.antt =====
-- nc/operations.py: what the owner does from the command line and the pages, while the lock of the
-- lifecycle is free.
pub mod Ownership
pub mod Recovery
pub mod Lifecycle
pub mod Answers
pub mod Import
