-- ===== src/Orchestrator/Reconcile.antt =====
-- orchestrator/reconcile.py: driving submitted orders to a state that the broker confirms.
pub mod Fills
pub mod Timeout
pub mod Poll
pub mod Recover
pub mod Ends
pub mod Raises
pub mod Unconfirmed
pub mod Numbers
pub mod Pass
