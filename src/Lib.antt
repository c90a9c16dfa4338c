-- ===== src/Lib.antt =====
-- Verification of the decisions that the Pyren daemon takes about hardware. Pyren is a root daemon
-- for HP OMEN and Victus laptops with a Svelte application in front of it. Its Rust crates are
-- under daemon/crates: each control loop reads sensors, asks a pure part what to do, and writes to
-- the hardware. These files model those decisions: when the fans are forced to full speed, what a
-- fan curve asks for, when a stall raises the floor, which power mode the automatic switch
-- chooses, which package limits are written, how an overclock is approached, tried and taken back,
-- and how events reach a client that polls.
--
-- The files, and the code that they are about:
--
-- Base, with Base/Tests, Lists, Int, Opt, Float, Maps: what the others share, and no code of the
-- program. Numbers are native; ℤ is over them, with wrap_i32 and wrap_i64 for what is left of an
-- integer in 32 and 64 bits.
--
-- Fan/Mode: FanMode, its names, and Capabilities::supports of daemon/crates/fan/src/control.rs.
--
-- Fan/Stall: daemon/crates/fan/src/stall.rs. StallWatch is the record of that name; observe, idle
-- and note_raised are its methods; `turn` is the place in FanModule::tick
-- (daemon/crates/fan/src/lib.rs) that calls them. Its children are Window (the deque of faults)
-- Raises (how often the floor is raised) and Third (that stalls raise it).
--
-- Fan/Safety: daemon/crates/fan/src/safety.rs. Sensor is SensorWatch with the plausibility test,
-- Critical is CriticalLatch and HeatThresholds, ZeroRpm is ZeroRpmWatch, Checker is
-- ThermalChecker, whose phases go watching, firmware, max.
--
-- Fan/Curve: daemon/crates/fan/src/curve.rs. Shape is percent_at, validate and repair; Floor is
-- percent_to_pwm, stop_below_pwm, release_fans and Hysteresis; Smoother is TempSmoother.
--
-- Fan/Calibration: Run and FloorRun of daemon/crates/fan/src/calibration.rs, which decide what a
-- measurement of the fans is worth. Its child Verdicts says what a stored number is evidence of.
--
-- Fan/Tick: tick_locked of daemon/crates/fan/src/lib.rs, one pass of the loop over the fans.
-- Guards is its first half: what the critical latch, the sensor watch and the checker see, which
-- of them is the most urgent (`hold`), and the write of a guard that has the fans (`held_pass`).
-- Drive is what the setting asks for, the GPU fan's own order and the floor; Stalls is the stall
-- watch with raise_floor_after_stalls; Pass puts them together. A pass takes the readings
-- (TickInputs) and a Board, which says what the driver answers in it, and leaves the state, the
-- commands that it wrote in order, what it announces, and its result. Requests is setMode,
-- tick_with_mode_request and tick_once, in which a mode is tried in a pass and taken back if the
-- pass does not write it. Overrides, Floors, Speeds, Refusals, Raised, Kept and Settled are about
-- the order of the guards, the speeds that are written, writes that are refused, the raise, what
-- no pass changes, and requests.
--
-- Power/Mode: PowerMode of daemon/crates/power/src/lib.rs and rank of
-- daemon/crates/power/src/auto.rs.
--
-- Power/Auto: daemon/crates/power/src/auto.rs. Config is AutoConfig with its check and the heat
-- latch, Refine is the choice of a mode from the readings, Switcher is AutoSwitcher with
-- observe_at, adopt and reset.
--
-- Power/Limits: Limits, Tuning and ModeTuning of daemon/crates/power/src/limits.rs.
--
-- Overclock/Plan: daemon/crates/overclock/src/plan.rs: clamp, and ramp with step_towards.
--
-- Overclock/Trial: OverclockModule of daemon/crates/overclock/src/lib.rs with the types of
-- probe.rs. An applied overclock is on trial until a client confirms it. Card is write_target,
-- verify, climb and persist; Methods is apply with its checks; Reset is confirm, reset,
-- setConsent, setRestoreOnStart, the probe and on_handover; Watchdog is one round of the
-- watchdog's thread, cancel and the revert they share; Start is with_store and restore_on_start. A
-- System is the module's State with a World: how often the driver was called, what was written,
-- and the configuration on disk. What the driver and the disk answer is a Driver, a record of
-- functions of the number of the call, so it may refuse at any call. Times are milliseconds. The
-- hardware is written without the lock of the state, so a revert is two events, begin_revert and
-- finish_revert, between which Crash, Chosen and Exclusive let anything happen. Disk, Armed, Safe,
-- SafeReset and Crash are about what a crash finds on disk, Choices and Chosen about the saved
-- choices, Rounds and Undone about the watchdog, Exclusive about the halves of a revert, Applied
-- about climbs, Returned about a reset.
--
-- Rgb/Color: Rgb of daemon/crates/rgb/src/color.rs. A text is the list of its characters, as
-- Unicode numbers, and its lengths and slices are those of its UTF-8 bytes, so that a slice inside
-- a character is the panic that it is in the code. RoundTrip is about printing and reading back
-- and about the short form, Bytes about what is accepted, and Nearest about the colour that three
-- numbers make.
--
-- Core/Events: EventBus of daemon/crates/core/src/events.rs. The lock is held for a whole step, so
-- a run is a sequence of publishes and polls in any order; what a waiting poll finds each time it
-- wakes up is an argument.
--
-- How the parts meet: the fan loop reads its sensors through SensorWatch, smooths with
-- TempSmoother, asks percent_at for a speed, and release_fans and Hysteresis whether to write it;
-- StallWatch looks at what the fans did with it; CriticalLatch and ThermalChecker can override all
-- of that. The power loop asks AutoSwitcher for a mode and applies its Tuning through Limits. Both
-- announce on the EventBus.
--
-- Numbers. An f64 is an integer in units of 2^-1074, an infinity or NaN, which is exact for
-- comparing, min, max and clamp; the two zeros are one value. Sums, products and quotients of f64
-- round, and are the operations of a record F64Ops that the definitions take: the theorems hold
-- for every choice of them. A clock is a number of seconds or nanoseconds, whichever the code
-- counts in, and differences of clocks saturate at 0. Sums of i32 and i64 that could leave their
-- range wrap; the sums and products of rpm readings in Fan/Stall and Fan/Safety are exact, since a
-- reading is far from the ends of i64. Counters of u64 and usize do not wrap.
--
-- Loops are structural recursion. The one with fuel is `climb`, the loop of ramp: fuel of the
-- distance of the two offsets (`enough`) is enough, and the theorem about ramp says so.
--
-- Not modelled: reading and writing of sysfs, EC, MSR, sockets and files, threads and locks,
-- logging, messages for people, serialization, and the crates that are mostly such (config, gpu,
-- hotkey, installer, keymap, network, rgb apart from its colours, system, users, with ctl, check
-- and the daemon's main), the application, the OSD, and the kernel driver. In the crates that are
-- modelled, the control loop of power (daemon/crates/power/src/lib.rs) is not modelled, and of
-- daemon/crates/fan/src/lib.rs only a pass of the loop and the request of a mode: not the reading
-- of the sensors before it, nor the other calls of clients, nor the answers to them. In
-- daemon/crates/overclock/src/lib.rs the answers to clients and the dispatch of a request by its
-- name are left out.
pub mod Base
pub mod Core
pub mod Fan
pub mod Overclock
pub mod Power
pub mod Rgb
