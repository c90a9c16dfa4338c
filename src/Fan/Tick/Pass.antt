-- ===== src/Fan/Tick/Pass.antt =====
-- daemon/crates/fan/src/lib.rs: `tick_locked`, a whole pass.
use pyren.Base.{
  ℕ, Bool, true, false, not, ◌&&◌, ◌||◌, Option, none, some, List, [], ◌∷◌, ◌++◌, pos, ltb, ltb_ℤ,
  if◌then◌else◌, is_some, unwrap_or, map_opt, then_some, F64Ops,
}
use pyren.Fan.Mode.{FanMode, auto, manual, curve, max, needs_pwm}
use pyren.Fan.Safety.ZeroRpm
use pyren.Fan.Curve.Floor.{
  stop_below_pwm, release_fans, pwm_deadband, abs_diff, should_apply, last_written, reset,
}
use pyren.Fan.Curve.Floor
use pyren.Fan.Tick.{
  State, TickInputs, Board, Command, apply_pair, Event, applied, deferred, Done,
  drives_gpu_fan_apart,
}
use pyren.Fan.Tick.Guards.{Guarded, guard, hold, held_pass, record_write, outcome_of}
use pyren.Fan.Tick.Drive.{
  FloorLimit, floor, sync_floor_override, Aim, speed, no_sensor, no_points, aim_in, split_of,
  joined, released_pass, stalled_pass,
}
use pyren.Fan.Tick.Stalls.{forget_writes, watch_stalls}

abbrev pub should_write : TickInputs → State → FanMode → Option ℕ → Bool
should_write i s auto target = not (is_some (last_written s.hysteresis))
should_write i s _ none = false
should_write i s _ (some target) =
    should_apply s.hysteresis target (then_some (ltb_ℤ (pos 0) i.rpm) i.rpm) s.config.fan_max_rpm
      i.now_secs

-- The slower fan's order moved while the faster one's stood still.
abbrev pub split_moved : Option (ℕ × ℕ) → Option (ℕ × ℕ) → Bool
split_moved (some (cpu, gpu)) (some (last_cpu, last_gpu)) =
    ltb pwm_deadband (abs_diff cpu last_cpu) || ltb pwm_deadband (abs_diff gpu last_gpu)
split_moved (some _) none = true
split_moved none last = false

-- The state after a write, which counts only when it was taken.
abbrev pub written : Bool → ℕ → ℕ → Option (ℕ × ℕ) → State → State
written true pwm now split s =
    record_write true
      (record s { hysteresis = Floor.applied s.hysteresis pwm now; split_written = split })
written false pwm now split s = record_write false s

unfoldable pub write_pass :
    Board → TickInputs → Option ℕ → Option (ℕ × ℕ) → List Command → List Event → State → Done
write_pass b i target split wrote events s =
    if should_write i s s.mode target || split_moved split s.split_written
    then (let pwm = unwrap_or target 0 in
        let (cpu, gpu) = unwrap_or split (pwm, pwm) in
        record {
          state = written b.takes pwm i.now_secs split s;
          wrote = wrote ++ (apply_pair s.mode cpu gpu ∷ []);
          events = events;
          outcome = outcome_of b.takes applied;
        })
    else record { state = s; wrote = wrote; events = events; outcome = deferred }

-- A speed that the fans may hold: the driver's floor is set, and the stalls are watched.
abbrev pub commanded :
    Board → TickInputs → ℕ → Option (ℕ × ℕ) → List Event → FloorLimit → State → Done
commanded b i target split events f s =
    let w = watch_stalls b i f target s in
    write_pass b i (some target) split (sync_floor_override f b.floor_override ++ w.wrote)
      (events ++ w.events) w.state

abbrev pub taken_back : State → State
taken_back s =
    if s.released then record s { released = false; hysteresis = reset s.hysteresis } else s

abbrev pub turning :
    Board → TickInputs → ℕ → Option (ℕ × ℕ) → List Event → FloorLimit → State → Done
turning b i target split events f s =
    let (zero_rpm, stalled) =
      ZeroRpm.observe s.zero_rpm
        (record { now = i.now_secs; pwm = some target; rpm = i.rpm_reading }) in
    if stalled
    then stalled_pass b i.now_secs target events s
    else commanded b i target split events f (record s { zero_rpm = zero_rpm })

-- A speed below the floor is one that the fans cannot hold: they go to the firmware.
unfoldable pub floored : Board → TickInputs → ℕ → Option (ℕ × ℕ) → List Event → State → Done
floored b i target split events s =
    let f = floor b s.config in
    let release = release_fans target (stop_below_pwm f.rpm s.config.fan_max_rpm) s.released in
    if release && s.released
    then record { state = s; wrote = []; events = events; outcome = applied }
    else if release
    then released_pass b events (record s { zero_rpm = none })
    else turning b i target split events f (taken_back s)

abbrev pub ordered : Board → TickInputs → Option ℕ → Option (ℕ × ℕ) → List Event → State → Done
ordered b i none split events s = write_pass b i none split [] events (record s { zero_rpm = none })
ordered b i (some target) split events s =
    if needs_pwm s.mode
    then floored b i target split events s
    else write_pass b i (some target) split [] events (record s { zero_rpm = none })

abbrev pub is_curve : FanMode → Bool
is_curve curve = true
is_curve auto = false
is_curve max = false
is_curve manual = false

abbrev pub noted : Option ℕ → State → State
noted target s = record s {
  last_target_pwm = if is_curve s.mode then target else s.last_target_pwm;
}

abbrev pub follow : F64Ops → Board → Bool → TickInputs → List Event → State → Aim → Done
follow fl b apart i events s no_sensor = record {
  state = s;
  wrote = [];
  events = events;
  outcome = deferred;
}
follow fl b apart i events s no_points =
    if s.released
    then record { state = s; wrote = []; events = events; outcome = applied }
    else released_pass b events s
follow fl b apart i events s (speed target) =
    let (s', split) = split_of fl apart i (noted target s) target in
    ordered b i (joined split target) split events
      (record s' { last_gpu_target_pwm = map_opt (λ x. x.1) split })

unfoldable pub drive : F64Ops → Board → Bool → TickInputs → List Event → State → Done
drive fl b apart i events s =
    let (s', aim) = aim_in fl i s s.mode in follow fl b apart i events s' aim

-- A mode that this daemon found, and did not set, is put back as it was.
abbrev pub put_back : Board → List Event → State → Done
put_back b events s = record {
  state = record_write b.takes s;
  wrote = apply_pair s.mode s.config.manual_pwm s.config.manual_pwm ∷ [];
  events = events;
  outcome = outcome_of b.takes applied;
}

unfoldable pub unheld_pass : F64Ops → Board → Bool → TickInputs → List Event → State → Done
unheld_pass fl b apart i events s =
    if is_some s.safety_hold
    then (let s' = forget_writes (record s { safety_hold = none }) in
        if s.owned then drive fl b apart i events s' else put_back b events s')
    else if s.owned
    then drive fl b apart i events s
    else record { state = s; wrote = []; events = events; outcome = deferred }

abbrev pub guarded_pass : F64Ops → Board → Bool → TickInputs → Guarded → Option FanMode → Done
guarded_pass fl b apart i g (some forced) = held_pass b i.now_secs forced g.events g.state
guarded_pass fl b apart i g none = unheld_pass fl b apart i g.events g.state

unfoldable pub tick_locked : F64Ops → Board → TickInputs → State → Done
tick_locked fl b i s =
    let apart = drives_gpu_fan_apart b s.config in
    let g = guard fl apart i s in
    if s.exiting || (s.calibrating || s.cleaning)
    then record { state = s; wrote = []; events = []; outcome = deferred }
    else guarded_pass fl b apart i g (hold g)
