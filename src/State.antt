-- ===== src/State.antt =====
-- state/: the rows of the SQLite store, and the only way their status changes.
pub mod Rows
pub mod Transition
pub mod Worklist
pub mod Keys
pub mod Specs
pub mod Migrations
