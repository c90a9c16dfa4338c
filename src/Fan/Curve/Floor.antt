-- ===== src/Fan/Curve/Floor.antt =====
-- daemon/crates/fan/src/curve.rs: the `pwm1` value of a speed, the speed below which the fans are
-- left to the firmware, and when a value is worth writing again. A `u8` is a number up to 255.
pub mod Bands
use pyren.Base.{
  ℕ, suc, ◌+◌, ◌-◌, ◌*◌, ◌/◌, min, Bool, true, false, ◌&&◌, Option, none, some, List, ltb, leb,
  ◌==◌, if◌then◌else◌, map_opt, ℤ, pos, negsuc, ◌+ℤ◌, ◌-ℤ◌, scale, ltb_ℤ, clamp_ℤ, abs, wrap_i64,
  quot, pos_part, F64, F64Ops, fin, inf, neg_inf, nan, unit, whole,
}
use pyren.Fan.Curve.Shape.{CurvePoint, Interpolation, percent_at, clamp_F}

-- 0 hands the fan to the firmware.
abbrev pub min_commanded_pwm : ℕ
min_commanded_pwm = 1

abbrev pub i64_max : ℤ
i64_max = pos 9223372036854775807

abbrev pub i64_min : ℤ
i64_min = negsuc 9223372036854775807

-- `x.round() as i64`: halves go away from zero, the conversion saturates and NaN is 0.
pub round_i64 : F64 → ℤ
round_i64 (fin (pos n)) = clamp_ℤ i64_min i64_max (pos ((2 * n + unit) / (2 * unit)))
round_i64 (fin (negsuc n)) =
    clamp_ℤ i64_min i64_max (scale ((2 * suc n + unit) / (2 * unit)) (negsuc 0))
round_i64 inf = i64_max
round_i64 neg_inf = i64_min
round_i64 nan = pos 0

abbrev pub to_u8 : ℤ → ℕ
to_u8 a = pos_part a

pub percent_to_pwm : F64Ops → F64 → ℕ
unfolding round_i64
percent_to_pwm fl percent =
    let clamped = clamp_F (whole 0) (whole 100) percent in
    let raw = round_i64 (fl.mul (fl.div clamped (whole 100)) (whole 255)) in
    to_u8 (clamp_ℤ (pos min_commanded_pwm) (pos 255) raw)

pub target_pwm : F64Ops → List CurvePoint → F64 → Interpolation → Option ℕ
unfolding percent_at percent_to_pwm
target_pwm fl curve t i = map_opt (percent_to_pwm fl) (percent_at fl curve t i)

-- `(min * 255 + max - 1) / max` in `i64`, rounded up.
abbrev pub floor_pwm : ℤ → ℕ → ℤ
floor_pwm lo hi = quot (wrap_i64 (scale 255 lo +ℤ pos hi -ℤ pos 1)) hi

unfoldable pub stop_below_pwm : Option ℤ → Option ℤ → ℕ
unfolding quot
stop_below_pwm (some lo) (some (pos hi)) =
    if ltb_ℤ (pos 0) lo && ltb 0 hi
    then to_u8 (clamp_ℤ (pos (min_commanded_pwm + 1)) (pos 255) (floor_pwm lo hi))
    else 0
stop_below_pwm _ _ = 0

abbrev pub pwm_deadband : ℕ
pwm_deadband = 8

-- `saturating_add` of `u8`.
abbrev pub release_threshold : ℕ → Bool → ℕ
release_threshold stop_below released =
    if released then min 255 (stop_below + pwm_deadband) else stop_below

unfoldable pub release_fans : ℕ → ℕ → Bool → Bool
release_fans target stop_below released =
    if stop_below == 0 then false else ltb target (release_threshold stop_below released)

abbrev pub rpm_deadband : ℤ
rpm_deadband = pos 200

abbrev pub reassert_secs : ℕ
reassert_secs = 60

-- `last: Option<(u8, u64)>`, the value written and when.
pub record Write : Type 0 where
  pub pwm : ℕ
  pub at : ℕ

pub record Hysteresis : Type 0 where
  pub last : Option Write

abbrev pub fresh : Hysteresis
fresh = record { last = none }

abbrev pub abs_diff : ℕ → ℕ → ℕ
abs_diff a b = (a - b) + (b - a)

-- `(expected - measured).abs() > RPM_DEADBAND` in `i64`.
abbrev pub rpm_off : ℕ → ℤ → ℕ → Bool
rpm_off target measured top =
    let expected = quot (wrap_i64 (pos (target * top))) 255 in
    ltb_ℤ rpm_deadband (wrap_i64 (pos (abs (wrap_i64 (expected -ℤ measured)))))

-- The form of the test that the calibration allows.
pub far_enough : ℕ → ℕ → Option ℤ → Option ℤ → Bool
unfolding quot
far_enough target last_pwm (some measured) (some (pos (suc top))) =
    rpm_off target measured (suc top)
far_enough target last_pwm _ _ = ltb pwm_deadband (abs_diff target last_pwm)

abbrev pub should_apply_after : Write → ℕ → Option ℤ → Option ℤ → ℕ → Bool
should_apply_after w target measured top now =
    if leb reassert_secs (now - w.at) then true else far_enough target w.pwm measured top

pub should_apply : Hysteresis → ℕ → Option ℤ → Option ℤ → ℕ → Bool
unfolding far_enough
should_apply h target measured top now = elim h.last [
  | none ↦ true
  | some w ↦ should_apply_after w target measured top now
]

pub applied : Hysteresis → ℕ → ℕ → Hysteresis
applied h pwm now = record { last = some (record { pwm = pwm; at = now }) }

unfoldable pub last_written : Hysteresis → Option ℕ
last_written h = map_opt (λ w. w.pwm) h.last

unfoldable pub reset : Hysteresis → Hysteresis
reset h = record { last = none }
