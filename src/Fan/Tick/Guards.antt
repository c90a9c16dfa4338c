-- ===== src/Fan/Tick/Guards.antt =====
-- daemon/crates/fan/src/lib.rs: the guards of a pass, which come before everything else, and the mode
-- that the most urgent one asks for.
use pyren.Base.{
  ℕ, ◌-◌, min, Bool, true, false, not, ◌&&◌, ◌||◌, Option, none, some, List, [], ◌∷◌, ◌++◌, ℤ, pos,
  F64, ltb, leb, ltb_ℤ, if◌then◌else◌, is_some_and, filter_opt,
}
use pyren.Base.{F64Ops}
use pyren.Fan.Mode.{FanMode, auto, max, manual, curve, needs_pwm}
use pyren.Fan.Safety.Sensor
use pyren.Fan.Safety.Critical
use pyren.Fan.Safety.Checker
use pyren.Fan.Curve.Floor.{last_written, reset, reassert_secs}
use pyren.Fan.Tick.{
  FanConfig, State, TickInputs, Board, apply_pair, Event, critical_guard, sensor_guard,
  checker_guard, TickOutcome, deferred, refused, Done, action_mode, reference_temp, known, unknown,
  write_failed,
}

abbrev pub near_full_pwm : ℕ
near_full_pwm = 230

abbrev pub manual_blind_below_pwm : ℕ
manual_blind_below_pwm = 128

abbrev pub slowest : Bool → ℕ → Option ℕ → ℕ
slowest true cpu_pwm (some gpu_pwm) = min gpu_pwm cpu_pwm
slowest _ cpu_pwm _ = cpu_pwm

-- `hottest.map(|temp| temp as i64)`: the hottest reading is a whole number.
abbrev pub hottest_whole : TickInputs → Option ℤ
hottest_whole i =
    Sensor.hotter (filter_opt Sensor.plausible_c i.cpu_temp_c)
      (filter_opt Sensor.plausible_c i.gpu_temp_c)

abbrev pub hottest : TickInputs → Option F64
hottest i = Sensor.hottest_c i.cpu_temp_c i.gpu_temp_c

-- The reading that the setting leans on, if it leans on one.
abbrev pub watched_in : FanMode → Bool → TickInputs → FanConfig → Option (Option ℤ)
watched_in curve apart i c = some (reference_temp i.cpu_temp_c i.gpu_temp_c c.reference_sensor)
watched_in manual apart i c =
    if ltb (slowest apart c.manual_pwm c.gpu_manual_pwm) manual_blind_below_pwm
    then some (hottest_whole i)
    else none
watched_in auto apart i c = none
watched_in max apart i c = none

-- The sensor watch after the pass, and whether it has failed.
abbrev pub sensor_step :
    Sensor.SensorWatch → Option (Option ℤ) → TickInputs → Sensor.SensorWatch × Bool
sensor_step w none i = (Sensor.fresh, false)
sensor_step w (some reading) i =
    let w' = Sensor.observe w reading i.now_secs (ltb_ℤ (pos 0) i.rpm) in (w', Sensor.failed w')

abbrev pub is_max : FanMode → Bool
is_max max = true
is_max auto = false
is_max manual = false
is_max curve = false

-- Fans commanded to full, and turning.
abbrev pub commanded_full : State → TickInputs → Bool
commanded_full s i =
    ltb_ℤ (pos 0) i.rpm
    && (is_max s.mode
        || (needs_pwm s.mode
            && not s.released
            && is_some_and (last_written s.hysteresis) (leb near_full_pwm)))

abbrev pub evidence_of : State → TickInputs → Checker.Evidence
evidence_of s i = record {
  now_secs = i.now_secs;
  hottest_c = hottest i;
  rpm = i.rpm_reading;
  fan_max_rpm = s.config.fan_max_rpm;
  commanded_full = commanded_full s i;
}

abbrev pub changed : Bool → Bool → Bool
changed a b = if a then not b else b

abbrev pub event_if : Bool → Event → List Event
event_if true e = e ∷ []
event_if false e = []

abbrev pub is_news : Checker.Transition → Bool
is_news Checker.unchanged = false
is_news Checker.watching_began = true
is_news Checker.handed_to_firmware = true
is_news Checker.forced_max = true
is_news Checker.restored = true

-- What the guards come to: the state with what they saw, and who is alarmed.
pub record Guarded : Type 0 where
  pub state : State
  pub critical : Bool
  pub sensor_failed : Bool
  pub events : List Event

unfoldable pub guard : F64Ops → Bool → TickInputs → State → Guarded
guard fl apart i s =
    let critical_now = Critical.observe s.critical (hottest i) in
    let sensor = sensor_step s.sensor_watch (watched_in s.mode apart i s.config) i in
    let checker =
      Checker.observe fl s.checker (evidence_of s i) i.heat s.config.thermal_safety_checker in
    record {
      state = record s { critical = critical_now; sensor_watch = sensor.0; checker = checker.0 };
      critical = critical_now && needs_pwm s.mode;
      sensor_failed = sensor.1;
      events =
          event_if (changed s.critical critical_now) (critical_guard critical_now (hottest i))
          ++ (event_if
                (is_some_and (watched_in s.mode apart i s.config)
                  (λ r. changed (Sensor.failed s.sensor_watch) sensor.1))
                (sensor_guard sensor.1)
              ++ event_if (is_news checker.1) (checker_guard checker.1));
    }

abbrev pub by_stall : State → Option FanMode
by_stall s = if s.stalled && needs_pwm s.mode then some auto else none

abbrev pub by_checker : State → Option FanMode → Option FanMode
by_checker s (some mode) = some mode
by_checker s none = by_stall s

-- Most urgent first.
unfoldable pub hold : Guarded → Option FanMode
hold g =
    if g.critical
    then some max
    else if g.sensor_failed
    then some (action_mode (g.state.config).sensor_failure_action)
    else by_checker g.state (Checker.command g.state.checker)

-- `record_write`: a write that is refused leaves the hardware unknown.
abbrev pub record_write : Bool → State → State
record_write true s = record s { last_control_error = none; hardware_state = known }
record_write false s = record s { last_control_error = some write_failed; hardware_state = unknown }

abbrev pub outcome_of : Bool → TickOutcome → TickOutcome
outcome_of true outcome = outcome
outcome_of false outcome = refused

abbrev pub same_mode : FanMode → FanMode → Bool
same_mode auto auto = true
same_mode max max = true
same_mode manual manual = true
same_mode curve curve = true
same_mode _ _ = false

abbrev pub hold_due : Option (FanMode × ℕ) → FanMode → ℕ → Bool
hold_due none forced now = true
hold_due (some (held, at)) forced now = not (same_mode held forced) || leb reassert_secs (now - at)

-- The state after the write of a hold; only one that was taken counts as held.
abbrev pub held_state : Bool → FanMode → ℕ → State → State
held_state takes forced now s = record_write takes (record s {
  hysteresis = reset s.hysteresis;
  released = false;
  safety_hold = if takes then some (forced, now) else s.safety_hold;
})

-- A guard has the fans: its mode is written at once, and again every minute.
unfoldable pub held_pass : Board → ℕ → FanMode → List Event → State → Done
held_pass b now forced events s =
    if hold_due s.safety_hold forced now
    then record {
      state = held_state b.takes forced now s;
      wrote = apply_pair forced 0 0 ∷ [];
      events = events;
      outcome = outcome_of b.takes deferred;
    }
    else record { state = s; wrote = []; events = events; outcome = deferred }
