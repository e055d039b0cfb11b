-- ===== src/Adapters.antt =====
-- nc/adapters.py: the result of a session and its assessment. The regular expressions are arguments:
-- a record says for each whether it is found in a text.
pub mod Usage
pub mod Terminal
pub mod Facts
pub mod Assess
pub mod Sessions
