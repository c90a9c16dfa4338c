-- ===== src/Power/Auto/Config.antt =====
-- daemon/crates/power/src/auto.rs: the settings of the supervisor, what makes them unusable, and the
-- modes that a power source may move between.
pub mod Bands
use pyren.Base.{
  ℕ, ◌+◌, ◌-◌, ◌*◌, ◌≤◌, ◌<◌, ◌≡◌, refl, Bool, true, false, not, ◌&&◌, ◌||◌, Option, none, some,
  ltb, leb, if◌then◌else◌, F64, whole, is_finite, leb_F, ltb_F, arith,
}
use pyren.Power.Mode.{PowerMode, eco, balanced, performance, unlimited, rank, mode_at}

pub record AutoConfig : Type 0 where
  pub enabled : Bool
  pub eco_on_battery : Bool
  pub performance_on_load : Bool
  pub preferred_on_battery : PowerMode
  pub preferred_on_mains : PowerMode
  pub load_high : F64
  pub load_low : F64
  pub battery_low_percent : F64
  pub back_off_when_hot : Bool
  pub temp_high_c : F64
  pub temp_low_c : F64
  pub samples_to_switch : ℕ
  pub interval_secs : ℕ
  pub manual_override_secs : ℕ

pub record AutoInputs : Type 0 where
  pub on_battery : Option Bool
  pub load_ratio : F64
  pub battery_percent : Option F64
  pub temp_c : Option F64

-- The message keys of `problem`.
pub data Problem : Type 0 where
  load_band temp_band battery_percent_range : Problem

unfoldable pub problem : AutoConfig → Option Problem
problem c =
    let finite =
      is_finite c.load_low
      && (is_finite c.load_high
          && (is_finite c.battery_low_percent
              && (is_finite c.temp_low_c && is_finite c.temp_high_c))) in
    if not finite || (ltb_F c.load_low (whole 0) || leb_F c.load_high c.load_low)
    then some load_band
    else if leb_F c.temp_high_c c.temp_low_c
    then some temp_band
    else if not (leb_F (whole 0) c.battery_low_percent && leb_F c.battery_low_percent (whole 100))
    then some battery_percent_range
    else none

-- `range(on_battery)`
abbrev pub range_floor : Bool → PowerMode
range_floor true = eco
range_floor false = balanced

abbrev pub range_ceiling : Bool → PowerMode
range_ceiling true = balanced
range_ceiling false = performance

unfoldable pub step_down : PowerMode → PowerMode → PowerMode
step_down mode floor = if leb (rank mode) (rank floor) then mode else mode_at (rank mode - 1)

unfoldable pub step_up : PowerMode → PowerMode → PowerMode
step_up mode ceiling = if leb (rank ceiling) (rank mode) then mode else mode_at (rank mode + 1)

unfoldable pub lower_of : PowerMode → PowerMode → PowerMode
lower_of a b = if leb (rank a) (rank b) then a else b

abbrev pub wanted : AutoConfig → Bool → PowerMode
wanted c true = c.preferred_on_battery
wanted c false = c.preferred_on_mains

unfoldable pub preferred : AutoConfig → Bool → PowerMode
preferred c on_battery =
    let m = wanted c on_battery in
    if ltb (rank m) (rank (range_floor on_battery))
    then range_floor on_battery
    else if ltb (rank (range_ceiling on_battery)) (rank m)
    then range_ceiling on_battery
    else m

unfoldable pub system_enabled : Bool → AutoConfig → Bool
system_enabled true c = c.eco_on_battery
system_enabled false c = c.performance_on_load

-- `HeatLatch::observe`; the latch is its `hot` field.
unfoldable pub observe_heat : Bool → Option F64 → AutoConfig → Bool
observe_heat hot none c = hot
observe_heat hot (some t) c =
    if leb_F c.temp_high_c t then true else if leb_F t c.temp_low_c then false else hot
