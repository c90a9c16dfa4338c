-- ===== src/Power/Auto/Switcher.antt =====
-- daemon/crates/power/src/auto.rs: the state machine of the supervisor. Moments are nanoseconds of a
-- monotonic clock, and a counter of agreeing samples does not reach 2 ^ 32.
pub mod Decisions
pub mod Gaps
pub mod Flicker
mod Tests
use pyren.Base.{
  ℕ, ◌+◌, ◌-◌, ◌*◌, ◌^◌, ◌≡◌, Bool, true, false, not, ◌&&◌, ◌||◌, Option, none, some, List, [], ◌∷◌,
  ltb, leb, if◌then◌else◌, F64Ops, is_some_and, then_some, max, same,
}
use pyren.Power.Mode.{PowerMode, unlimited, same_mode}
use pyren.Power.Auto.Config.{AutoConfig, AutoInputs, preferred, system_enabled, observe_heat}
use pyren.Power.Auto.Refine.{Baseline, Why, hot, refine}

abbrev pub source_samples_to_switch : ℕ
source_samples_to_switch = 2

-- 30 s
abbrev pub transition_gap : ℕ
transition_gap = 30 * 10 ^ 9

pub record AutoSwitcher : Type 0 where
  pub last_on_battery : Option Bool
  pub unconfirmed_source : Option (Bool × ℕ)
  pub deferred_transition : Option Bool
  pub last_transition_at : Option ℕ
  pub pending : Option (PowerMode × ℕ)
  pub heat : Bool
  pub manual : Option PowerMode

-- `AutoSwitcher::default()`
abbrev pub fresh : AutoSwitcher
fresh = record {
  last_on_battery = none;
  unconfirmed_source = none;
  deferred_transition = none;
  last_transition_at = none;
  pending = none;
  heat = false;
  manual = none;
}

-- The sentence that a decision is explained by.
pub data Reason : Type 0 where
  to_battery plugged_in : Reason
  because : Why → Reason

pub record AutoDecision : Type 0 where
  pub mode : PowerMode
  pub reason : Reason
  pub from_transition : Bool
  pub from_heat : Bool

abbrev pub is_hot_why : Why → Bool
is_hot_why hot = true
is_hot_why _ = false

abbrev manual_baseline_of : Option PowerMode → PowerMode → Baseline
manual_baseline_of none p = record { mode = p; manual = false }
manual_baseline_of (some m) p =
    if same_mode m p
    then record { mode = p; manual = false }
    else record { mode = m; manual = true }

unfoldable pub baseline : AutoSwitcher → AutoConfig → Bool → Baseline
baseline s c on_battery = manual_baseline_of s.manual (preferred c on_battery)

abbrev pub agreeing : Option (PowerMode × ℕ) → PowerMode → ℕ
agreeing none target = 1
agreeing (some (p, count)) target = if same_mode p target then count + 1 else 1

abbrev pub no_pending : AutoSwitcher → AutoSwitcher
no_pending s = record s { pending = none }

-- `refinement` from the answer of `refine` on.
pub pursue :
    AutoSwitcher
    → AutoConfig
    → PowerMode
    → Option (PowerMode × Why)
    → AutoSwitcher × Option AutoDecision
pursue s c current none = (no_pending s, none)
pursue s c current (some (target, why)) =
    let count = agreeing s.pending target in
    if same_mode target current
    then (no_pending s, none)
    else if leb (max c.samples_to_switch 1) count
    then (
      no_pending s,
      some (record {
        mode = target;
        reason = because why;
        from_transition = false;
        from_heat = is_hot_why why;
      }),
    )
    else (record s { pending = some (target, count) }, none)

pub refinement :
    F64Ops
    → AutoSwitcher
    → AutoInputs
    → AutoConfig
    → Bool
    → PowerMode
    → AutoSwitcher × Option AutoDecision
refinement fl s inputs c on_battery current =
    if same_mode current unlimited
    then (no_pending s, none)
    else if not (system_enabled on_battery c) && not (s.heat && c.back_off_when_hot)
    then (no_pending s, none)
    else pursue s c current (refine fl inputs c on_battery s.heat (baseline s c on_battery) current)

-- What the comparison with the last source comes to.
pub data Source : Type 0 where
  same_source new_source unbelieved : Source

abbrev pub seen_again : Option (Bool × ℕ) → Bool → ℕ
seen_again none b = 1
seen_again (some (source, seen)) b = if same source b then seen + 1 else 1

pub confirm_new : AutoSwitcher → Bool → AutoSwitcher × Source
confirm_new s b =
    let seen = seen_again s.unconfirmed_source b in
    if ltb seen source_samples_to_switch
    then (record s { unconfirmed_source = some (b, seen) }, unbelieved)
    else (record s { unconfirmed_source = none; last_on_battery = some b }, new_source)

abbrev confirm_at : AutoSwitcher → Bool → Option Bool → AutoSwitcher × Source
confirm_at s b none = (record s { last_on_battery = some b }, same_source)
confirm_at s b (some was) =
    if same was b then (record s { unconfirmed_source = none }, same_source) else confirm_new s b

pub confirm : AutoSwitcher → Bool → AutoSwitcher × Source
confirm s b = confirm_at s b s.last_on_battery

-- What a confirmed change of source resets.
abbrev pub changed_source : AutoSwitcher → AutoConfig → Bool → AutoSwitcher
changed_source s c b = record s {
  manual = none;
  pending = none;
  deferred_transition = then_some (system_enabled b c) b;
}

abbrev transition_decision : AutoConfig → Bool → AutoDecision
transition_decision c source = record {
  mode = preferred c source;
  reason = if source then to_battery else plugged_in;
  from_transition = true;
  from_heat = false;
}

-- Whether the gap since the last switch forbids another one.
abbrev pub too_soon : AutoSwitcher → ℕ → Bool
too_soon s now = is_some_and s.last_transition_at (λ at. ltb (now - at) transition_gap)

-- The block on a transition that waits for `source`.
pub transition :
    AutoSwitcher → AutoConfig → Bool → Bool → PowerMode → ℕ → AutoSwitcher × Option AutoDecision
transition s c source b current now =
    if not (same source b) || same_mode (preferred c source) current
    then (record s { deferred_transition = none }, none)
    else if too_soon s now
    then (s, none)
    else (
      record s { deferred_transition = none; last_transition_at = some now },
      some (transition_decision c source),
    )

-- `observe_at` once the source is believed.
abbrev settle :
    F64Ops
    → AutoSwitcher
    → AutoInputs
    → AutoConfig
    → Bool
    → PowerMode
    → ℕ
    → Option Bool
    → AutoSwitcher × Option AutoDecision
settle fl s inputs c b current now none = refinement fl s inputs c b current
settle fl s inputs c b current now (some source) = transition s c source b current now

pub after_confirm :
    F64Ops
    → AutoInputs
    → AutoConfig
    → Bool
    → PowerMode
    → ℕ
    → AutoSwitcher × Source
    → AutoSwitcher × Option AutoDecision
after_confirm fl inputs c b current now (s, unbelieved) = (s, none)
after_confirm fl inputs c b current now (s, same_source) =
    settle fl s inputs c b current now s.deferred_transition
after_confirm fl inputs c b current now (s, new_source) =
    let s' = changed_source s c b in settle fl s' inputs c b current now s'.deferred_transition

abbrev observe_source :
    F64Ops
    → AutoSwitcher
    → AutoInputs
    → AutoConfig
    → PowerMode
    → ℕ
    → Option Bool
    → AutoSwitcher × Option AutoDecision
observe_source fl s inputs c current now none = refinement fl s inputs c false current
observe_source fl s inputs c current now (some b) =
    after_confirm fl inputs c b current now (confirm s b)

pub observe_at :
    F64Ops
    → AutoSwitcher
    → AutoInputs
    → AutoConfig
    → PowerMode
    → ℕ
    → AutoSwitcher × Option AutoDecision
observe_at fl s inputs c current now =
    observe_source fl (record s { heat = observe_heat s.heat inputs.temp_c c }) inputs c current now
      inputs.on_battery

pub adopt : AutoSwitcher → PowerMode → AutoSwitcher
adopt s m = record s { manual = some m; pending = none }

pub reset : AutoSwitcher → AutoSwitcher
reset s = record s { pending = none }

-- One tick of the supervisor: what was sampled, in which mode, when.
pub record Sample : Type 0 where
  pub inputs : AutoInputs
  pub current : PowerMode
  pub now : ℕ
