-- ===== src/Fan/Tick.antt =====
-- daemon/crates/fan/src/lib.rs: one pass of the loop over the fans. The types here; `Guards` decides
-- whether a guard takes the fans, `Drive` follows the setting, and `Pass` is the whole of a pass.
pub mod Guards
pub mod Drive
pub mod Stalls
pub mod Pass
pub mod Overrides
pub mod Floors
pub mod Speeds
pub mod Refusals
pub mod Requests
pub mod Kept
pub mod Settled
pub mod Raised
mod Tests
use pyren.Base.{
  ℕ, Bool, true, false, not, ◌&&◌, Option, none, some, List, [], ◌∷◌, String, ℤ, pos, F64, lookup,
  ltb_ℤ, min_ℤ, ◌+ℤ◌, if◌then◌else◌, is_some_and, map_opt, filter_opt,
}
use pyren.Fan.Mode.{FanMode, auto, max, Capabilities}
use pyren.Fan.Curve.Shape.{CurvePoint, Interpolation}
use pyren.Fan.Curve.Floor.{Hysteresis}
use pyren.Fan.Curve.Smoother.{TempSmoother}
use pyren.Fan.Stall.{StallWatch}
use pyren.Fan.Safety.Sensor.{SensorWatch}
use pyren.Fan.Safety.Critical.{HeatThresholds}
use pyren.Fan.Safety.Checker.{Checker, Transition}

pub data ReferenceSensor : Type 0 where
  cpu gpu : ReferenceSensor

pub data SensorFailureAction : Type 0 where
  to_max to_auto : SensorFailureAction

abbrev pub action_mode : SensorFailureAction → FanMode
action_mode to_max = max
action_mode to_auto = auto

pub record FloorNotice : Type 0 where
  pub at_unix_secs : ℕ
  pub raised_from_rpm : ℤ
  pub raised_to_rpm : ℤ
  pub stalls : ℕ
  pub reached_driver_floor : Bool

-- What a pass reads of the configuration, and what it changes. `speed_ignored` and `split_together`
-- are what the two probes of the hardware found.
pub record FanConfig : Type 0 where
  pub mode : FanMode
  pub manual_pwm : ℕ
  pub curve : List CurvePoint
  pub profile_curves : List (String × List CurvePoint)
  pub interpolation : Interpolation
  pub reference_sensor : ReferenceSensor
  pub ma_window : ℕ
  pub fan_max_rpm : Option ℤ
  pub fan_min_rpm : Option ℤ
  pub fan_stable_min_rpm : Option ℤ
  pub keep_driver_floor : Bool
  pub fan_floor_notices : List FloorNotice
  pub speed_ignored : Bool
  pub separate_gpu_fan : Bool
  pub split_together : Bool
  pub gpu_curve : List CurvePoint
  pub gpu_profile_curves : List (String × List CurvePoint)
  pub gpu_manual_pwm : Option ℕ
  pub thermal_safety_checker : Bool
  pub sensor_failure_action : SensorFailureAction

pub data HardwareState : Type 0 where
  unverified known unknown : HardwareState

pub data ControlNote : Type 0 where
  no_cpu_temp curve_empty write_failed : ControlNote

pub record ModeRequest : Type 0 where
  pub mode : FanMode
  pub manual_pwm : Option ℕ

pub record State : Type 0 where
  pub config : FanConfig
  pub mode : FanMode
  pub pending_mode : Option ModeRequest
  pub hardware_state : HardwareState
  pub owned : Bool
  pub active_profile : Option String
  pub hysteresis : Hysteresis
  pub released : Bool
  pub stall : StallWatch
  pub smoother : TempSmoother
  pub gpu_smoother : TempSmoother
  pub split_written : Option (ℕ × ℕ)
  pub last_gpu_target_pwm : Option ℕ
  pub calibrating : Bool
  pub cleaning : Bool
  pub last_target_pwm : Option ℕ
  pub last_control_error : Option ControlNote
  pub save_failed : Bool
  pub sensor_watch : SensorWatch
  pub critical : Bool
  pub checker : Checker
  pub zero_rpm : Option ℕ
  pub stalled : Bool
  pub safety_hold : Option (FanMode × ℕ)
  pub exiting : Bool

pub record TickInputs : Type 0 where
  pub now_secs : ℕ
  pub cpu_temp_c : Option ℤ
  pub gpu_temp_c : Option ℤ
  pub rpm_reading : Option ℤ
  pub rpm : ℤ
  pub heat : HeatThresholds

-- What the machine answers in one pass: what its driver can do and says of its floor, whether the
-- write of a pass (there is at most one of the fans) is taken, and the clocks when a floor is raised.
pub record Board : Type 0 where
  pub caps : Capabilities
  pub has_pwm2 : Bool
  pub driver_floor : Option ℤ
  pub floor_override_supported : Bool
  pub floor_override : Option ℕ
  pub floor_override_after : Option ℕ
  pub takes : Bool
  pub saves : Bool
  pub raised_at : ℕ
  pub unix_now : ℕ

-- `apply_pair` of a mode with the two speeds, and the driver's floor.
pub data Command : Type 0 where
  apply_pair : FanMode → ℕ → ℕ → Command
  set_floor_override : ℕ → Command

pub data Event : Type 0 where
  critical_guard : Bool → Option F64 → Event
  sensor_guard : Bool → Event
  checker_guard : Transition → Event
  stalled_at : ℕ → Event
  floor_raised : ℤ → ℤ → ℕ → Bool → Event

pub data TickOutcome : Type 0 where
  applied deferred refused : TickOutcome

-- What a pass leaves: the state, what it wrote in order, what it announces, and its result.
pub record Done : Type 0 where
  pub state : State
  pub wrote : List Command
  pub events : List Event
  pub outcome : TickOutcome

-- `reference_temp`, without the sensor that was used.
unfoldable pub reference_temp : Option ℤ → Option ℤ → ReferenceSensor → Option ℤ
reference_temp cpu_temp gpu_temp cpu = cpu_temp
reference_temp cpu_temp gpu_temp gpu = elim (filter_opt (ltb_ℤ (pos 0)) gpu_temp) [
  | some t ↦ some t
  | none ↦ cpu_temp
]

abbrev pub drives_gpu_fan_apart : Board → FanConfig → Bool
drives_gpu_fan_apart b c =
    c.separate_gpu_fan
    && (b.caps.set_speed && not c.speed_ignored && not c.split_together && b.has_pwm2)
