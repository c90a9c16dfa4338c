-- ===== src/Power/Auto/Switcher/Flicker.antt =====
-- A power source that flickers, daemon/crates/power/src/auto.rs.
use pyren.Base.{
  ◌≡◌, refl, Bool, true, false, not, Option, none, some, List, [], ◌∷◌, F64Ops, arith, inl, inr,
  ◌⊎◌, ap, sym, subst, ◌∙◌,
}
use pyren.Power.Auto.Config.{AutoConfig, AutoInputs, observe_heat}
use pyren.Power.Mode.{PowerMode}
use pyren.Power.Auto.Switcher.{
  AutoSwitcher, AutoDecision, same_source, unbelieved, confirm, confirm_new, pursue, refinement,
  after_confirm, settle, observe_source, observe_at, baseline, Sample,
}
use pyren.Power.Auto.Refine.{refine, Why}
use pyren.Power.Auto.Switcher.Gaps.{is_transition, transitions}

-- Samples from a machine on source `b`, in which the other source never shows twice in a row; the
-- flag says whether it showed in the sample before.
abbrev pub Flickers : Bool → Bool → List Sample → Type 0
Flickers b shown [] = Unit {0}
Flickers b shown (t ∷ ts) =
    ((t.inputs.on_battery ≡ some b) × Flickers b false ts)
    ⊎ ((shown ≡ false) × (t.inputs.on_battery ≡ some (not b)) × Flickers b true ts)

-- What the switcher holds while the source only flickers.
pub record Steady (b shown : Bool) (s : AutoSwitcher) : Type 0 where
  pub last : s.last_on_battery ≡ some b
  pub deferred : s.deferred_transition ≡ none
  pub waiting : shown ≡ false → s.unconfirmed_source ≡ none

-- Refinement leaves all that alone, and its decisions are not for the power source.
abbrev Untouched : AutoSwitcher → AutoSwitcher × Option AutoDecision → Type 0
Untouched s (s', d) =
    (s'.last_on_battery ≡ s.last_on_battery)
    × (s'.deferred_transition ≡ s.deferred_transition)
    × (s'.unconfirmed_source ≡ s.unconfirmed_source)
    × (is_transition d ≡ false)

pursue-Untouched :
    (s : AutoSwitcher) (c : AutoConfig) (current : PowerMode) (r : Option (PowerMode × Why))
    → Untouched s (pursue s c current r)
unfolding pursue
pursue-Untouched s c current none = (refl, refl, refl, refl)
pursue-Untouched s c current (some (target, why)) = ground arith

refinement-Untouched :
    (fl : F64Ops) (s : AutoSwitcher) (inputs : AutoInputs) (c : AutoConfig) (b : Bool)
    (current : PowerMode)
    → Untouched s (refinement fl s inputs c b current)
unfolding refinement
refinement-Untouched fl s inputs c b current =
    ground
      (arith, pursue-Untouched s c current (refine fl inputs c b s.heat (baseline s c b) current))

confirm_same :
    (s : AutoSwitcher) (b : Bool)
    → s.last_on_battery ≡ some b
    → confirm s b ≡ (record s { unconfirmed_source = none }, same_source)
unfolding confirm
confirm_same s true e = ground arith
confirm_same s false e = ground arith

confirm_other :
    (s : AutoSwitcher) (b : Bool)
    → s.last_on_battery ≡ some b
    → s.unconfirmed_source ≡ none
    → confirm s (not b) ≡ (record s { unconfirmed_source = some (not b, 1) }, unbelieved)
unfolding confirm confirm_new
confirm_other s true e f = ground arith
confirm_other s false e f = ground arith

abbrev heated : AutoSwitcher → Sample → AutoConfig → AutoSwitcher
heated s t c = record s { heat = observe_heat s.heat t.inputs.temp_c c }

-- The step of a sample of the known source with nothing waiting, and of the first of another one.
observe_at-known :
    (fl : F64Ops) (c : AutoConfig) (b : Bool) (s : AutoSwitcher) (t : Sample)
    → s.last_on_battery ≡ some b
    → s.deferred_transition ≡ none
    → t.inputs.on_battery ≡ some b
    → observe_at fl s t.inputs c t.current t.now
      ≡ refinement fl (record (heated s t c) { unconfirmed_source = none }) t.inputs c b t.current
unfolding observe_at after_confirm
observe_at-known fl c b s t last deferred e =
    let s' : AutoSwitcher = heated s t c in
    let s'' : AutoSwitcher = record s' { unconfirmed_source = none } in
    ap (observe_source fl s' t.inputs c t.current t.now) e
    ∙ ap (after_confirm fl t.inputs c b t.current t.now) (confirm_same s' b last)
    ∙ ap (settle fl s'' t.inputs c b t.current t.now) deferred

observe_at-other :
    (fl : F64Ops) (c : AutoConfig) (b : Bool) (s : AutoSwitcher) (t : Sample)
    → s.last_on_battery ≡ some b
    → s.unconfirmed_source ≡ none
    → t.inputs.on_battery ≡ some (not b)
    → observe_at fl s t.inputs c t.current t.now
      ≡ (record (heated s t c) { unconfirmed_source = some (not b, 1) }, none)
unfolding observe_at after_confirm
observe_at-other fl c b s t last waiting e =
    let s' : AutoSwitcher = heated s t c in
    ap (observe_source fl s' t.inputs c t.current t.now) e
    ∙ ap (after_confirm fl t.inputs c (not b) t.current t.now) (confirm_other s' b last waiting)

abbrev SteadyAfter : Bool → Bool → AutoSwitcher × Option AutoDecision → Type 0
SteadyAfter b shown (s', d) = Steady b shown s' × (is_transition d ≡ false)

same-Steady :
    (fl : F64Ops) (c : AutoConfig) (b shown : Bool) (s : AutoSwitcher) (t : Sample)
    → Steady b shown s
    → t.inputs.on_battery ≡ some b
    → SteadyAfter b false (observe_at fl s t.inputs c t.current t.now)
same-Steady fl c b shown s t v e =
    subst (SteadyAfter b false) (sym (observe_at-known fl c b s t v.last v.deferred e))
      (record { last = u.0 ∙ v.last; deferred = u.1 ∙ v.deferred; waiting = λ h. u.2 }, u.3)
  where
    s'' : AutoSwitcher
    s'' = record (heated s t c) { unconfirmed_source = none }

    u : Untouched s'' (refinement fl s'' t.inputs c b t.current)
    u = refinement-Untouched fl s'' t.inputs c b t.current

other-Steady :
    (fl : F64Ops) (c : AutoConfig) (b : Bool) (s : AutoSwitcher) (t : Sample)
    → Steady b false s
    → t.inputs.on_battery ≡ some (not b)
    → SteadyAfter b true (observe_at fl s t.inputs c t.current t.now)
other-Steady fl c b s t v e =
    subst (SteadyAfter b true) (sym (observe_at-other fl c b s t v.last (v.waiting refl) e))
      (record { last = v.last; deferred = v.deferred; waiting = λ h. cc }, refl)

-- A cable that flickers is never answered: while a machine settled on one power source sees the other
-- for at most one sample at a time, no switch is made for the source.
pub Flickers-no_transition :
    (fl : F64Ops) (c : AutoConfig) (b shown : Bool) (s : AutoSwitcher) (ts : List Sample)
    → Steady b shown s
    → Flickers b shown ts
    → transitions fl c s ts ≡ []
unfolding transitions
Flickers-no_transition fl c b shown s [] v f = refl
Flickers-no_transition fl c b shown s (t ∷ ts) v (inl (e, f)) =
    let w = same-Steady fl c b shown s t v e in
    rw w.1
      (Flickers-no_transition fl c b false (observe_at fl s t.inputs c t.current t.now).0 ts w.0 f)
Flickers-no_transition fl c b shown s (t ∷ ts) v (inr (hid, e, f)) =
    let w = other-Steady fl c b s t (rw hid at v) e in
    rw w.1
      (Flickers-no_transition fl c b true (observe_at fl s t.inputs c t.current t.now).0 ts w.0 f)
