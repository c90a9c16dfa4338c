-- ===== src/Fan/Safety.antt =====
-- daemon/crates/fan/src/safety.rs: the guards between a fan setting and an overheating machine, each
-- in a child: the sensor watch, the critical latch, the thermal checker, the zero-rpm watch.
pub mod Sensor
pub mod Critical
pub mod Checker
pub mod ZeroRpm
mod Tests
