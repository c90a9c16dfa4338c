-- ===== src/Power.antt =====
-- The power module, daemon/crates/power.
pub mod Mode
pub mod Auto
pub mod Limits
