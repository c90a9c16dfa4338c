-- ===== src/Power/Auto/Refine.antt =====
-- daemon/crates/power/src/auto.rs: where the current conditions point. The midpoint of the load band
-- is taken with the arithmetic of `F64Ops`.
pub mod Rules
use pyren.Base.{
  ℕ, ◌≡◌, Bool, true, false, not, ◌&&◌, ◌||◌, Option, none, some, ltb, leb, if◌then◌else◌, F64,
  F64Ops, whole, leb_F, is_some_and,
}
use pyren.Power.Mode.{PowerMode, rank}
use pyren.Power.Auto.Config.{
  AutoConfig, AutoInputs, range_floor, range_ceiling, step_down, step_up, lower_of,
}

pub record Baseline : Type 0 where
  pub mode : PowerMode
  pub manual : Bool

pub data Why : Type 0 where
  hot battery_low sustained_load idle back_to_preferred out_of_range : Why

unfoldable pub middle : F64Ops → AutoConfig → F64
middle fl c = fl.div (fl.add c.load_high c.load_low) (whole 2)

abbrev pub below : Bool → Baseline → PowerMode
below on_battery b = step_down b.mode (range_floor on_battery)

abbrev pub above : Bool → Baseline → PowerMode
above on_battery b = if b.manual then b.mode else step_up b.mode (range_ceiling on_battery)

-- The last three rules: load, idling and the way back through the dead band.
unfoldable pub refine_load :
    F64Ops → AutoInputs → AutoConfig → Bool → Baseline → PowerMode → Option (PowerMode × Why)
refine_load fl inputs c on_battery b current =
    if leb_F c.load_high inputs.load_ratio
    then some (above on_battery b, sustained_load)
    else if leb_F inputs.load_ratio c.load_low
    then some (below on_battery b, idle)
    else if (ltb (rank b.mode) (rank current) && leb_F inputs.load_ratio (middle fl c))
        || (ltb (rank current) (rank b.mode) && leb_F (middle fl c) inputs.load_ratio)
    then some (b.mode, back_to_preferred)
    else none

unfoldable pub refine :
    F64Ops → AutoInputs → AutoConfig → Bool → Bool → Baseline → PowerMode → Option (PowerMode × Why)
refine fl inputs c on_battery is_hot b current =
    if is_hot && c.back_off_when_hot
    then some (lower_of (below on_battery b) current, hot)
    else if on_battery && is_some_and inputs.battery_percent (λ p. leb_F p c.battery_low_percent)
    then some (lower_of (range_floor on_battery) current, battery_low)
    else if not b.manual
        && (ltb (rank current) (rank (range_floor on_battery))
            || ltb (rank (range_ceiling on_battery)) (rank current))
    then some (
      if ltb (rank current) (rank (range_floor on_battery))
          then range_floor on_battery
          else range_ceiling on_battery,
      out_of_range,
    )
    else refine_load fl inputs c on_battery b current
