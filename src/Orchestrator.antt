-- ===== src/Orchestrator.antt =====
-- orchestrator/: the trading day's stages, and the passes that compare the books with the broker.
pub mod Broker
pub mod Reconcile
pub mod Dispatch
pub mod Daily
pub mod Protection
pub mod Ingest
pub mod Preconditions
pub mod Resolve
pub mod Pnl
pub mod Reflect
pub mod Improve
