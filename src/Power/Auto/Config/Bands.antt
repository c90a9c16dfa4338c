-- ===== src/Power/Auto/Config/Bands.antt =====
-- What an accepted configuration of daemon/crates/power/src/auto.rs promises.
use pyren.Base.{
  ℕ, zero, suc, ◌+◌, ◌-◌, ◌≤◌, ◌≡◌, refl, Bool, true, false, none, if◌then◌else◌, leb, whole, leb_F,
  ltb_F, arith,
}
use pyren.Power.Mode.{PowerMode, rank, mode_at}
use pyren.Power.Auto.Config.{
  AutoConfig, problem, preferred, wanted, range_floor, range_ceiling, step_down, step_up, lower_of,
}

pub rank-mode_at : (i : ℕ) → i ≤ 3 → rank (mode_at i) ≡ i
rank-mode_at zero h = refl
rank-mode_at (suc zero) h = refl
rank-mode_at (suc (suc zero)) h = refl
rank-mode_at (suc (suc (suc zero))) h = refl
rank-mode_at (suc (suc (suc (suc i)))) h = absurd (omega arith)

pub rank_bound : (m : PowerMode) → rank m ≤ 3
rank_bound m = ground arith

pub rank-step_down :
    (m floor : PowerMode)
    → rank (step_down m floor) ≡ (if leb (rank m) (rank floor) then rank m else rank m - 1)
unfolding step_down
rank-step_down m floor = ground (arith, rank-mode_at (rank m - 1), rank_bound m)

pub rank-step_up :
    (m ceiling : PowerMode)
    → rank (step_up m ceiling) ≡ (if leb (rank ceiling) (rank m) then rank m else rank m + 1)
unfolding step_up
rank-step_up m ceiling = ground (arith, rank-mode_at (rank m + 1), rank_bound ceiling)

pub rank-lower_of :
    (a b : PowerMode) → rank (lower_of a b) ≡ (if leb (rank a) (rank b) then rank a else rank b)
unfolding lower_of
rank-lower_of a b = ground arith

-- The preferred mode lies in the power source's range whatever the file asks for, so it is never
-- Unlimited, and never Performance on battery; a wish inside the range is granted.
pub preferred_bounds :
    (c : AutoConfig) (on_battery : Bool)
    → let m = preferred c on_battery in
      (rank (range_floor on_battery) ≤ rank m)
      × (rank m ≤ rank (range_ceiling on_battery))
      × (rank (range_floor on_battery) ≤ rank (wanted c on_battery)
          → rank (wanted c on_battery) ≤ rank (range_ceiling on_battery)
          → m ≡ wanted c on_battery)
unfolding preferred
preferred_bounds c true = ground arith
preferred_bounds c false = ground arith

-- A configuration that `problem` accepts has a load band that starts at 0 or above, load and temperature
-- bands that are not crossed, and a battery threshold that is a percentage.
pub problem-none :
    (c : AutoConfig)
    → problem c ≡ none
    → (leb_F (whole 0) c.load_low ≡ true)
      × (ltb_F c.load_low c.load_high ≡ true)
      × (ltb_F c.temp_low_c c.temp_high_c ≡ true)
      × (leb_F (whole 0) c.battery_low_percent ≡ true)
      × (leb_F c.battery_low_percent (whole 100) ≡ true)
unfolding problem
problem-none c h = ground arith
