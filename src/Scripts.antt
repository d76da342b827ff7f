-- ===== src/Scripts.antt =====
-- scripts/: the nightly jobs around the day.
pub mod ReflectDay
