-- ===== src/Orchestrator/Daily.antt =====
-- orchestrator/daily.py: the stages of the trading day.
pub mod Stage
pub mod Sizing
pub mod Gate
pub mod Execution
pub mod Turns
pub mod Day
