-- ===== src/Power/Auto/Switcher/Tests.antt =====
-- The supervisor on concrete samples, as in the tests of daemon/crates/power/src/auto.rs.
use pyren.Base.{
  ℕ, ◌≡◌, refl, inl, inr, ◌*◌, ◌^◌, ◌≤◌, true, false, Bool, List, [], ◌∷◌, none, some, arith,
  F64Ops, whole, unit, Spaced, All,
}
use pyren.Power.Mode.{PowerMode, eco, balanced, performance, rank}
use pyren.Power.Auto.Config.{
  AutoConfig, AutoInputs, problem, preferred, step_down, step_up, lower_of, system_enabled,
  observe_heat,
}
use pyren.Power.Auto.Refine.{Baseline, sustained_load, refine, refine_load}
use pyren.Power.Auto.Refine.Rules.{refine-in_range}
use pyren.Power.Auto.Switcher.{
  AutoSwitcher, Sample, fresh, observe_at, pursue, refinement, baseline, confirm, confirm_new,
  transition, after_confirm, transition_gap,
}
use pyren.Power.Auto.Switcher.Decisions.{IsSound, observe_at-IsSound, gaps, fresh-gaps_bound}
use pyren.Power.Auto.Switcher.Gaps.{transitions, fresh-transitions-Spaced}
use pyren.Power.Auto.Switcher.Flicker.{Flickers-no_transition}

-- The defaults, with whole numbers for the load band.
abbrev settings : AutoConfig
settings = record {
  enabled = true;
  eco_on_battery = true;
  performance_on_load = true;
  preferred_on_battery = eco;
  preferred_on_mains = performance;
  load_high = whole 2;
  load_low = whole 1;
  battery_low_percent = whole 25;
  back_off_when_hot = true;
  temp_high_c = whole 85;
  temp_low_c = whole 75;
  samples_to_switch = 2;
  interval_secs = 10;
  manual_override_secs = 600;
}

abbrev ops : F64Ops
ops = record { add = λ a b. a; sub = λ a b. a; mul = λ a b. a; div = λ a b. a }

abbrev inputs_on : Bool → AutoInputs
inputs_on b = record {
  on_battery = some b;
  load_ratio = whole 0;
  battery_percent = some (whole 80);
  temp_c = some (whole 50);
}

-- Seconds 0, 10, 20, … of a machine that is unplugged, plugged in again, and unplugged.
abbrev at_secs : ℕ → Bool → PowerMode → Sample
at_secs s b m = record { inputs = inputs_on b; current = m; now = s * 10 ^ 9 }

abbrev unplugged_twice : List Sample
unplugged_twice =
    at_secs 0 false performance
    ∷ at_secs 10 true performance
    ∷ at_secs 20 true performance
    ∷ at_secs 30 false eco
    ∷ at_secs 40 false eco
    ∷ at_secs 50 false eco
    ∷ []

unplugged_twice_switches :
    transitions ops settings fresh unplugged_twice ≡ (20 * 10 ^ 9) ∷ (50 * 10 ^ 9) ∷ []
unfolding transitions observe_at after_confirm confirm confirm_new transition preferred
    system_enabled refinement pursue refine refine_load baseline step_down lower_of observe_heat
    unit
unplugged_twice_switches = refl

fresh-transitions-Spaced_example :
    Spaced transition_gap none (transitions ops settings fresh unplugged_twice)
fresh-transitions-Spaced_example =
    fresh-transitions-Spaced ops settings unplugged_twice (omega arith)

observe_at-IsSound_example :
    IsSound settings
      (inputs_on false)
      balanced
      none
      (observe_at ops fresh (inputs_on false) settings balanced 5).1
      (observe_at ops fresh (inputs_on false) settings balanced 5).0.pending
observe_at-IsSound_example = observe_at-IsSound ops fresh (inputs_on false) settings balanced 5

fresh-gaps_bound_example : All (λ g. 2 ≤ g) (gaps ops settings fresh 0 unplugged_twice)
fresh-gaps_bound_example = fresh-gaps_bound ops settings unplugged_twice

abbrev on_mains : AutoSwitcher
on_mains = record fresh { last_on_battery = some false }

Flickers-no_transition_example :
    transitions ops settings on_mains
      (at_secs 0 true performance ∷ at_secs 10 false performance ∷ at_secs 20 true performance ∷ [])
    ≡ []
Flickers-no_transition_example =
    Flickers-no_transition ops settings false false on_mains
      (at_secs 0 true performance ∷ at_secs 10 false performance ∷ at_secs 20 true performance ∷ [])
      (record { last = refl; deferred = refl; waiting = λ h. refl })
      (inr (refl, refl, inl (refl, inr (refl, refl, tt))))

settings-problem : problem settings ≡ none
unfolding problem unit
settings-problem = refl

-- A hand-picked Performance on battery, under load.
abbrev by_hand : Baseline
by_hand = record { mode = performance; manual = true }

abbrev busy : AutoInputs
busy = record (inputs_on true) { load_ratio = whole 3 }

refine-in_range_example : rank performance ≤ rank performance
unfolding refine refine_load step_up unit
refine-in_range_example =
    (refine-in_range ops busy settings false false (record { mode = performance; manual = false })
      balanced performance sustained_load refl refl (omega arith) (omega arith)).0
