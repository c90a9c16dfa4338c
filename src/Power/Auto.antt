-- ===== src/Power/Auto.antt =====
-- daemon/crates/power/src/auto.rs: the supervisor that picks a power mode from the power source, the
-- load, the battery and the heat. The rules are in `Refine`, the state machine in `Switcher`.
pub mod Config
pub mod Refine
pub mod Switcher
