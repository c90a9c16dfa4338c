-- ===== src/Fan.antt =====
-- The fan module, daemon/crates/fan.
pub mod Mode
pub mod Stall
pub mod Tick
pub mod Safety
pub mod Curve
pub mod Calibration
