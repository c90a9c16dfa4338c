-- ===== src/Fan/Safety/Tests.antt =====
-- The guards on concrete readings, as in the tests of daemon/crates/fan/src/safety.rs.
use pyren.Base.{
  ℕ, ◌≡◌, ◌≢◌, ◌↔◌, refl, true, false, [], ◌∷◌, Option, none, some, pos, arith, F64, F64Ops, whole,
  unit, ltb_F, ◌≤ℤ◌, ◌+ℤ◌,
}
use pyren.Fan.Mode.{auto, max}
use pyren.Fan.Safety.Sensor
use pyren.Fan.Safety.Sensor.{
  SensorWatch, plausible_c, hotter, unusable_run-failed, changed_reading-clears,
  frozen_reading-counts, hotter_bounds,
}
use pyren.Fan.Safety.Critical
use pyren.Fan.Safety.Critical.{
  HeatThresholds, critical_c, critical-holds, clear-releases, sanitised, sanitised_bounds,
  default_thresholds,
}
use pyren.Fan.Safety.ZeroRpm
use pyren.Fan.Safety.ZeroRpm.{stalled_run, turning-resets}
use pyren.Fan.Safety.Checker
use pyren.Fan.Safety.Checker.{
  Evidence, Episode, Checker, firmware, watching, command, trip, responded, cooled, is_hot,
  near_max,
}
use pyren.Fan.Safety.Checker.Steps.{
  Tells, observe-Tells, observe-begins_iff, Tripped, trip-run-Tripped,
}
use pyren.Fan.Safety.Checker.Escalation.{Unheeded, Unheeded-max}

abbrev missing : ℕ → Sensor.Look
missing now = record { reading = none; now = now; turning = true }

unusable_run-failed_example :
    Sensor.failed (Sensor.watch Sensor.fresh (missing 0 ∷ missing 2 ∷ missing 4 ∷ [])) ≡ true
unfolding Sensor.plausible_c
unusable_run-failed_example =
    unusable_run-failed Sensor.fresh (missing 0 ∷ missing 2 ∷ missing 4 ∷ [])
      (refl, (refl, (refl, tt)))

-- A sensor that read 50 degrees from 10 s on, twice counted bad.
abbrev frozen : SensorWatch
frozen = record { bad_ticks = 2; last = some (pos 50); unchanged_since = 10 }

frozen_reading-counts_example : (Sensor.observe frozen (some (pos 50)) 400 true).bad_ticks ≡ 3
unfolding Sensor.plausible_c
frozen_reading-counts_example = (frozen_reading-counts frozen (pos 50) 400 refl refl).2

-- A garbage register beside a real reading.
hotter_bounds_example : pos 70 ≤ℤ pos 70
unfolding Sensor.plausible_c hotter
hotter_bounds_example =
    (hotter_bounds (some (pos 255)) (some (pos 70)) (pos 70) refl).3 (pos 70) refl refl

abbrev at : ℕ → Option F64
at c = some (whole c)

critical-holds_example : Critical.run false (at 50 ∷ at 91 ∷ none ∷ at 85 ∷ []) ≡ true
unfolding unit
critical-holds_example =
    critical-holds false (at 50 ∷ []) (none ∷ at 85 ∷ []) (whole 91) refl (refl, (refl, tt))

sanitised_bounds_example :
    ltb_F (sanitised F64.nan (whole 75)).cool_c (sanitised F64.nan (whole 75)).hot_c ≡ true
sanitised_bounds_example = (sanitised_bounds F64.nan (whole 75)).0

abbrev zero_at : ℕ → ZeroRpm.Look
zero_at now = record { now = now; pwm = some 128; rpm = some (pos 0) }

stalled_run_example :
    (ZeroRpm.run none (zero_at 5 ∷ zero_at 14 ∷ zero_at 15 ∷ [])).1 ≡ false ∷ false ∷ true ∷ []
stalled_run_example =
    stalled_run (zero_at 5) (zero_at 14 ∷ zero_at 15 ∷ []) (refl, (refl, (refl, tt)))

turning-resets_example :
    (ZeroRpm.run (some 2) (record (zero_at 12) { rpm = some (pos 900) } ∷ zero_at 14 ∷ [])).1
    ≡ false ∷ (ZeroRpm.run none (zero_at 14 ∷ [])).1
turning-resets_example =
    turning-resets (some 2) (record (zero_at 12) { rpm = some (pos 900) }) (zero_at 14 ∷ []) refl

-- Arithmetic for the witnesses: no calibrated maximum is given, so it is not consulted.
abbrev no_ops : F64Ops
no_ops = record { add = λ a b. a; sub = λ a b. a; mul = λ a b. a; div = λ a b. a }

abbrev hot_at : ℕ → Evidence
hot_at now = record {
  now_secs = now;
  hottest_c = some (whole 86);
  rpm = some (pos 2000);
  fan_max_rpm = none;
  commanded_full = false;
}

abbrev with_firmware : Episode
with_firmware = record {
  phase = firmware 0 (some (pos 2000)) false;
  cool_below = whole 75;
  tripped = false;
}

observe-Tells_example :
    Tells
      (some auto)
      (Checker.observe no_ops (some with_firmware) (hot_at 12) default_thresholds true).1
      (command (Checker.observe no_ops (some with_firmware) (hot_at 12) default_thresholds true).0)
unfolding command
observe-Tells_example =
    observe-Tells no_ops (some with_firmware) (hot_at 12) default_thresholds true

observe-begins_iff_example :
    ((Checker.observe no_ops none (hot_at 3) default_thresholds true).0 ≢ none)
    ↔ ((true ≡ true) × (is_hot (hot_at 3) default_thresholds ≡ true))
observe-begins_iff_example = observe-begins_iff no_ops (hot_at 3) default_thresholds true

trip-run-Tripped_example :
    let held = (trip none 0 none (whole 55)).0 in
    let after = Checker.run no_ops held (hot_at 2 ∷ hot_at 30 ∷ []) default_thresholds false in
    (command held ≡ some auto) × Tripped (whole 55) after × (command after ≢ none)
unfolding unit
trip-run-Tripped_example =
    trip-run-Tripped no_ops default_thresholds false none 0 none (whole 55)
      (hot_at 2 ∷ hot_at 30 ∷ []) (refl, (refl, tt))

hot_at-Unheeded : (now : ℕ) → Unheeded no_ops default_thresholds (pos 1900) (pos 2100) (hot_at now)
unfolding unit near_max
hot_at-Unheeded now = record {
  hot = refl;
  rpm_in = omega arith;
  not_near_max = refl;
  not_full = refl;
}

Unheeded-max_example :
    command (
      Checker.run no_ops none
        (hot_at 0 ∷ hot_at 6 ∷ hot_at 12 ∷ hot_at 18 ∷ hot_at 24 ∷ hot_at 30 ∷ [])
        default_thresholds
        true)
    ≡ some max
unfolding unit ◌+ℤ◌
Unheeded-max_example =
    Unheeded-max no_ops default_thresholds (pos 1900) (pos 2100) 6 (hot_at 0)
      (hot_at 6 ∷ hot_at 12 ∷ hot_at 18 ∷ hot_at 24 ∷ hot_at 30 ∷ []) (omega arith) refl
      (
        hot_at-Unheeded 0,
        (
          hot_at-Unheeded 6,
          (
            hot_at-Unheeded 12,
            (hot_at-Unheeded 18, (hot_at-Unheeded 24, (hot_at-Unheeded 30, tt))),
          ),
        ),
      )
      (omega arith) (omega arith)
