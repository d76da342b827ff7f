-- ===== src/Agents.antt =====
-- agents/: the tools through which a seat reads its brief and writes to the store, and the hooks of the trader.
pub mod Seats
pub mod Brief
pub mod Submit
pub mod Critic
pub mod Backtests
pub mod Hooks
pub mod Recorder
