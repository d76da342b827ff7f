-- ===== src/Tests.antt =====
-- Each theorem with conditions or parameters, applied to concrete data.
pub mod Samples
mod Store
mod Trading
mod Broker
mod Seats
mod Research
mod Learning
mod Briefs
