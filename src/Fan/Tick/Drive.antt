-- ===== src/Fan/Tick/Drive.antt =====
-- daemon/crates/fan/src/lib.rs: a pass that no guard holds follows the setting.
use pyren.Base.{
  ℕ, Bool, true, false, not, ◌&&◌, Option, none, some, List, [], ◌∷◌, ◌++◌, String, ℤ, pos, of_int,
  lookup, ltb_ℤ, min_ℤ, clamp_ℤ, ◌+ℤ◌, quot, wrap_i64, if◌then◌else◌, is_some_and, unwrap_or,
  or_else, map_opt, filter_opt, F64Ops, max, ◌==◌,
}
use pyren.Fan.Mode.{FanMode, auto, manual, curve, needs_pwm}
use pyren.Fan.Safety.Sensor.{plausible_c}
use pyren.Fan.Curve.Shape.{CurvePoint}
use pyren.Fan.Curve.Floor.{target_pwm, reset, to_u8}
use pyren.Fan.Curve.Smoother.{push}
use pyren.Fan.Tick.{
  FanConfig, State, TickInputs, Board, Command, apply_pair, set_floor_override, Event, stalled_at,
  applied, deferred, Done, gpu, reference_temp, no_cpu_temp, curve_empty,
}
use pyren.Fan.Tick.Guards.{record_write, outcome_of}

-- `Floor`
pub record FloorLimit : Type 0 where
  pub rpm : Option ℤ
  pub override_hundreds : Option ℕ

abbrev pub floor_margin_rpm : ℤ
floor_margin_rpm = pos 100

abbrev pub at_most : ℤ → Option ℤ → ℤ
at_most floor none = floor
at_most floor (some driver) = min_ℤ floor driver

unfoldable pub pyren_floor : Option ℤ → Option ℤ → Option ℤ
pyren_floor slowest_held driver =
    map_opt (λ held. at_most (wrap_i64 (held +ℤ floor_margin_rpm)) driver) slowest_held

abbrev pub is_lower : ℤ → Option ℤ → Bool
is_lower rpm none = true
is_lower rpm (some driver) = ltb_ℤ rpm driver

-- The override is in hundreds, rounded up.
abbrev pub hundreds : ℤ → ℕ
hundreds rpm = to_u8 (clamp_ℤ (pos 1) (pos 255) (quot (wrap_i64 (rpm +ℤ pos 99)) 100))

unfoldable pub floor_in_force : Option ℤ → Option ℤ → Bool → Bool → FloorLimit
floor_in_force driver pyren keep_driver false = record { rpm = driver; override_hundreds = none }
floor_in_force driver none keep_driver true = record { rpm = driver; override_hundreds = some 0 }
floor_in_force driver (some rpm) keep_driver true =
    if not keep_driver && is_lower rpm driver
    then record { rpm = some rpm; override_hundreds = some (hundreds rpm) }
    else record { rpm = driver; override_hundreds = some 0 }

unfoldable pub floor : Board → FanConfig → FloorLimit
floor b c =
    let driver = or_else b.driver_floor c.fan_min_rpm in
    floor_in_force driver (pyren_floor c.fan_stable_min_rpm driver) c.keep_driver_floor
      b.floor_override_supported

-- What `sync_floor_override` writes, with what it reads there.
abbrev pub sync_floor_override : FloorLimit → Option ℕ → List Command
sync_floor_override f present = elim f.override_hundreds [
  | none ↦ []
  | some want ↦ if is_some_and present (λ p. p == want) then [] else set_floor_override want ∷ []
]

abbrev pub named : Option String → List (String × List CurvePoint) → Option (List CurvePoint)
named none curves = none
named (some p) curves = lookup p curves

abbrev pub has_points : List CurvePoint → Bool
has_points [] = false
has_points (_ ∷ _) = true

abbrev pub curve_for : FanConfig → Option String → List CurvePoint
curve_for c profile = unwrap_or (filter_opt has_points (named profile c.profile_curves)) c.curve

abbrev pub gpu_curve_for : FanConfig → Option String → List CurvePoint
gpu_curve_for c profile =
    unwrap_or
      (or_else (filter_opt has_points (named profile c.gpu_profile_curves))
        (filter_opt has_points (some c.gpu_curve)))
      (curve_for c profile)

-- What the setting asks for: a speed or none, or a curve that cannot be followed.
pub data Aim : Type 0 where
  speed : Option ℕ → Aim
  no_sensor no_points : Aim

abbrev pub aim_points : State → Option ℕ → State × Aim
aim_points s none = (record s { last_control_error = some curve_empty }, no_points)
aim_points s (some pwm) = (s, speed (some pwm))

abbrev pub aim_curve : F64Ops → State → Option ℤ → State × Aim
aim_curve fl s none = (record s { last_control_error = some no_cpu_temp }, no_sensor)
aim_curve fl s (some temp) =
    let (smoother, avg) = push fl s.smoother (of_int temp) in
    aim_points (record s { smoother = smoother })
      (target_pwm fl (curve_for s.config s.active_profile) avg s.config.interpolation)

-- The `match mode` of the pass.
abbrev pub aim_in : F64Ops → TickInputs → State → FanMode → State × Aim
aim_in fl i s auto = (s, speed none)
aim_in fl i s FanMode.max = (s, speed (some 0))
aim_in fl i s manual = (s, speed (some (s.config).manual_pwm))
aim_in fl i s curve =
    aim_curve fl s
      (filter_opt plausible_c (reference_temp i.cpu_temp_c i.gpu_temp_c s.config.reference_sensor))

abbrev pub gpu_curve_speed : F64Ops → State → Option ℤ → State × Option ℕ
gpu_curve_speed fl s none = (s, none)
gpu_curve_speed fl s (some temp) =
    let (smoother, avg) = push fl s.gpu_smoother (of_int temp) in
    (
      record s { gpu_smoother = smoother },
      target_pwm fl (gpu_curve_for s.config s.active_profile) avg s.config.interpolation,
    )

-- The GPU fan's own order; only the modes with a speed come here.
abbrev pub gpu_order : F64Ops → TickInputs → State → FanMode → State × Option ℕ
gpu_order fl i s manual = (s, s.config.gpu_manual_pwm)
gpu_order fl i s _ =
    gpu_curve_speed fl s (filter_opt plausible_c (reference_temp i.cpu_temp_c i.gpu_temp_c gpu))

unfoldable pub split_of : F64Ops → Bool → TickInputs → State → Option ℕ → State × Option (ℕ × ℕ)
split_of fl apart i s none = (s, none)
split_of fl apart i s (some cpu_pwm) =
    if apart && needs_pwm s.mode
    then (let (s', own) = gpu_order fl i s s.mode in (s', some (cpu_pwm, unwrap_or own cpu_pwm)))
    else (s, none)

-- The faster of the two orders.
abbrev pub joined : Option (ℕ × ℕ) → Option ℕ → Option ℕ
joined none target = target
joined (some (cpu_pwm, gpu_pwm)) target = some (max cpu_pwm gpu_pwm)

-- The fans go to the firmware, once.
abbrev pub released_pass : Board → List Event → State → Done
released_pass b events s = record {
  state = record_write b.takes (record s { released = true; hysteresis = reset s.hysteresis });
  wrote = apply_pair auto 0 0 ∷ [];
  events = events;
  outcome = outcome_of b.takes applied;
}

-- Real speed commanded, and nothing turns.
abbrev pub stalled_pass : Board → ℕ → ℕ → List Event → State → Done
stalled_pass b now target events s = record {
  state = record_write b.takes (record s {
    stalled = true;
    zero_rpm = none;
    hysteresis = reset s.hysteresis;
    safety_hold = if b.takes then some (auto, now) else s.safety_hold;
  });
  wrote = apply_pair auto 0 0 ∷ [];
  events = events ++ (stalled_at target ∷ []);
  outcome = outcome_of b.takes deferred;
}
