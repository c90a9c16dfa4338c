-- ===== src/Power/Auto/Refine/Rules.antt =====
-- The rules of `refine`, daemon/crates/power/src/auto.rs: how far it can move the mode, and which way.
use pyren.Base.{◌≤◌, ◌≡◌, ◌≢◌, ◌⊎◌, Bool, true, false, some, F64Ops, arith}
use pyren.Power.Mode.{PowerMode, rank}
use pyren.Power.Auto.Config.{AutoConfig, AutoInputs, range_floor, range_ceiling}
use pyren.Power.Auto.Config.Bands.{rank-step_down, rank-step_up, rank-lower_of}
use pyren.Power.Auto.Refine.{Baseline, Why, hot, battery_low, refine, refine_load, below}

refine_load-why :
    (fl : F64Ops) (inputs : AutoInputs) (c : AutoConfig) (on_battery : Bool) (b : Baseline)
    (current target : PowerMode) (why : Why)
    → refine_load fl inputs c on_battery b current ≡ some (target, why)
    → (why ≢ hot) × (why ≢ battery_low)
unfolding refine_load
refine_load-why fl inputs c on_battery b current target why e = ground arith

module _ (fl : F64Ops) (inputs : AutoInputs) (c : AutoConfig) (on_battery is_hot : Bool)
    (b : Baseline) (current target : PowerMode) (why : Why)
    (moves : refine fl inputs c on_battery is_hot b current ≡ some (target, why)) where
  -- A mode picked by hand is never stepped above.
  pub refine-manual_ceiling : b.manual ≡ true → rank target ≤ rank b.mode
  unfolding refine refine_load
  refine-manual_ceiling m = ground (
    arith,
    rank-step_down b.mode (range_floor on_battery),
    rank-lower_of (below on_battery b) current,
    rank-lower_of (range_floor on_battery) current,
  )

  -- Heat and a low battery only ever step down.
  pub refine-protective : (why ≡ hot) ⊎ (why ≡ battery_low) → rank target ≤ rank current
  unfolding refine
  refine-protective w = ground (
    arith,
    refine_load-why fl inputs c on_battery b current target why,
    rank-lower_of (below on_battery b) current,
    rank-lower_of (range_floor on_battery) current,
  )

  -- Around a preferred mode of the power source's range, the target never leaves the range upwards,
  -- and leaves it downwards only by staying where the machine already is.
  pub refine-in_range :
      b.manual ≡ false
      → rank (range_floor on_battery) ≤ rank b.mode
      → rank b.mode ≤ rank (range_ceiling on_battery)
      → (rank target ≤ rank (range_ceiling on_battery))
        × ((rank (range_floor on_battery) ≤ rank target) ⊎ (rank target ≡ rank current))
  unfolding refine refine_load
  refine-in_range m lo hi = (
    ground (
      arith,
      rank-step_down b.mode (range_floor on_battery),
      rank-step_up b.mode (range_ceiling on_battery),
      rank-lower_of (below on_battery b) current,
      rank-lower_of (range_floor on_battery) current,
    ),
    ground (
      arith,
      rank-step_down b.mode (range_floor on_battery),
      rank-step_up b.mode (range_ceiling on_battery),
      rank-lower_of (below on_battery b) current,
      rank-lower_of (range_floor on_battery) current,
    ),
  )
