-- ===== src/Fan/Tick/Tests.antt =====
-- Passes of the loop over the fans.
use pyren.Base.{
  ℕ, ◌≡◌, ◌≤◌, ◌⊎◌, refl, arith, true, false, Option, none, some, List, [], ◌∷◌, pos, whole, All,
  F64, F64Ops, leb, inl, inr, length, ◌+◌,
}
use pyren.Fan.Mode.{curve, manual, needs_pwm}
use pyren.Fan.Mode
use pyren.Fan.Safety.Sensor
use pyren.Fan.Safety.Critical
use pyren.Fan.Stall
use pyren.Fan.Curve.Shape.{discrete}
use pyren.Fan.Curve.Floor
use pyren.Fan.Tick.{
  FanConfig, State, TickInputs, Board, apply_pair, refused, unknown, known, cpu, to_max,
}
use pyren.Fan.Tick.Overrides.{AtFull, critical-AtFull}
use pyren.Fan.Tick.Floors.{stop_at, Holds}
use pyren.Fan.Tick.Speeds.{tick-Holds}
use pyren.Fan.Tick.Refusals.{refused-retries}
use pyren.Fan.Tick.Stalls.{raise_floor_after_stalls}
use pyren.Fan.Tick.Requests.{request_pass}
use pyren.Fan.Tick.Settled.{Settles, request_pass-Settles}
use pyren.Fan.Tick.Raised.{IsHigher, raise-IsHigher}
use pyren.Fan.Tick.Pass.{tick_locked}

-- Arithmetic that answers with its left argument.
abbrev ops : F64Ops
ops = record { add = λ a b. a; sub = λ a b. a; mul = λ a b. a; div = λ a b. a }

abbrev config : FanConfig
config = record {
  mode = manual;
  ma_window = 5;
  manual_pwm = 60;
  curve = [];
  profile_curves = [];
  interpolation = discrete;
  reference_sensor = cpu;
  fan_max_rpm = some (pos 5800);
  fan_min_rpm = some (pos 2000);
  fan_stable_min_rpm = some (pos 600);
  keep_driver_floor = false;
  fan_floor_notices = [];
  speed_ignored = false;
  separate_gpu_fan = false;
  split_together = false;
  gpu_curve = [];
  gpu_profile_curves = [];
  gpu_manual_pwm = none;
  thermal_safety_checker = true;
  sensor_failure_action = to_max;
}

abbrev state : State
state = record {
  config = config;
  mode = manual;
  pending_mode = none;
  hardware_state = known;
  owned = true;
  active_profile = none;
  hysteresis = Floor.fresh;
  released = false;
  stall = Stall.fresh;
  smoother = record { window = 5; samples = []; warm_up = false };
  gpu_smoother = record { window = 5; samples = []; warm_up = false };
  split_written = none;
  last_gpu_target_pwm = none;
  calibrating = false;
  cleaning = false;
  last_target_pwm = none;
  last_control_error = none;
  save_failed = false;
  sensor_watch = Sensor.fresh;
  critical = false;
  checker = none;
  zero_rpm = none;
  stalled = false;
  safety_hold = none;
  exiting = false;
}

abbrev board : Board
board = record {
  caps = record { switch_mode = true; set_speed = true };
  has_pwm2 = false;
  driver_floor = some (pos 2000);
  floor_override_supported = true;
  floor_override = none;
  floor_override_after = none;
  takes = false;
  saves = true;
  raised_at = 900;
  unix_now = 1700000000;
}

abbrev hot : TickInputs
hot = record {
  now_secs = 100;
  cpu_temp_c = some (pos 93);
  gpu_temp_c = none;
  rpm_reading = some (pos 1400);
  rpm = pos 1400;
  heat = record { hot_c = whole 85; cool_c = whole 75 };
}

abbrev later : TickInputs
later = record hot { now_secs = 102 }

critical-AtFull_example : AtFull hot state (tick_locked ops board hot state)
unfolding Sensor.hottest_c Mode.needs_pwm pyren.Base.unit
critical-AtFull_example =
    critical-AtFull ops board hot state (whole 93)
      (record { staying = refl; measured = refl; cleaned = refl }) refl refl refl

tick-Holds_example :
    All
      (Holds (stop_at board config) true)
      (tick_locked ops board (record hot { cpu_temp_c = some (pos 60) }) state).wrote
tick-Holds_example = tick-Holds ops board (record hot { cpu_temp_c = some (pos 60) }) state

refused-retries_example :
    ((tick_locked ops board hot state).outcome ≡ refused)
    × ((tick_locked ops board hot state).state.hardware_state ≡ unknown)
    × ((tick_locked ops board later (tick_locked ops board hot state).state).wrote
        ≡ apply_pair Mode.max 0 0 ∷ [])
unfolding tick_locked Sensor.hottest_c Mode.needs_pwm pyren.Base.unit pyren.Fan.Tick.Guards.hold
    pyren.Fan.Tick.Guards.guard Critical.observe pyren.Fan.Tick.Guards.held_pass
refused-retries_example =
    refused-retries ops board board hot later state (whole 93) (whole 93)
      (record { staying = refl; measured = refl; cleaned = refl }) refl refl refl refl refl
      (omega arith) refl refl

raise-IsHigher_example :
    IsHigher config (raise_floor_after_stalls board 3 state).state.config board.driver_floor 2000
    × (((raise_floor_after_stalls board 3 state).state.config.fan_stable_min_rpm ≡ some (pos 600))
        ⊎ ((raise_floor_after_stalls board 3 state).state.config.fan_stable_min_rpm
            ≡ some (pos (600 + 100))))
    × (length (raise_floor_after_stalls board 3 state).state.config.fan_floor_notices ≤ 5)
    × ((raise_floor_after_stalls board 3 state).state.stall.last_raise ≡ some 900)
raise-IsHigher_example = raise-IsHigher board 3 state 600 2000 refl refl (omega arith) (omega arith)

request_pass-Settles_example :
    Settles state
      (record { mode = Mode.max; manual_pwm = none })
      (request_pass ops board later (record { mode = Mode.max; manual_pwm = none }) state)
request_pass-Settles_example =
    request_pass-Settles ops board later (record { mode = Mode.max; manual_pwm = none }) state
