-- ===== src/Gate.antt =====
-- gate/: the deterministic gate between every decision and every broker order.
pub mod Risk
pub mod Tickets
