-- ===== src/Backtest.antt =====
-- The backtests: fundbt/registry.py, the enforcement around the engine in fundbt/run_backtest.py, and the
-- tool that runs one (agents/tools/fund_server.py).
pub mod Registry
pub mod Params
pub mod Runs
