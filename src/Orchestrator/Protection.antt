-- ===== src/Orchestrator/Protection.antt =====
-- orchestrator/protection.py and state/protection.py: whether the stops that were promised are live at the
-- broker, and whether the fund's records account for what the broker holds.
pub mod Cover
pub mod Checks
pub mod Accounts
pub mod Once
pub mod Silent
