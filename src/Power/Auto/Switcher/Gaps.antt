-- ===== src/Power/Auto/Switcher/Gaps.antt =====
-- How often the supervisor of daemon/crates/power/src/auto.rs answers the power source.
use pyren.Base.{
  ℕ, ◌-◌, ◌≤◌, ◌≡◌, ◌⊎◌, inl, inr, refl, subst, Bool, true, false, Option, none, some, List, [],
  ◌∷◌, ltb, F64Ops, Spaced, arith, same, is_some_and, Bool-cases, not, ◌||◌,
}
use pyren.Power.Mode.{PowerMode, same_mode}
use pyren.Power.Auto.Config.{AutoConfig, AutoInputs, observe_heat, preferred}
use pyren.Power.Auto.Refine.{refine, Why}
use pyren.Power.Auto.Switcher.{
  AutoSwitcher, AutoDecision, Source, same_source, new_source, unbelieved, transition_gap, too_soon,
  pursue, refinement, confirm, confirm_new, transition, after_confirm, settle, observe_source,
  observe_at, changed_source, baseline, Sample, fresh,
}

abbrev pub is_transition : Option AutoDecision → Bool
is_transition none = false
is_transition (some d) = d.from_transition

-- What a step does to the moment of the last switch.
abbrev Marks : ℕ → Option ℕ → AutoSwitcher × Option AutoDecision → Type 0
Marks now last (s', d) =
    ((is_transition d ≡ true)
      × (s'.last_transition_at ≡ some now)
      × (is_some_and last (λ at. ltb (now - at) transition_gap) ≡ false))
    ⊎ ((is_transition d ≡ false) × (s'.last_transition_at ≡ last))

pursue-Marks :
    (s : AutoSwitcher) (c : AutoConfig) (current : PowerMode) (r : Option (PowerMode × Why))
    (now : ℕ)
    → Marks now s.last_transition_at (pursue s c current r)
unfolding pursue
pursue-Marks s c current none now = inr (refl, refl)
pursue-Marks s c current (some (target, why)) now = inr (ground arith, ground arith)

refinement-Marks :
    (fl : F64Ops) (s : AutoSwitcher) (inputs : AutoInputs) (c : AutoConfig) (b : Bool)
    (current : PowerMode) (now : ℕ)
    → Marks now s.last_transition_at (refinement fl s inputs c b current)
unfolding refinement
refinement-Marks fl s inputs c b current now =
    ground
      (arith, pursue-Marks s c current (refine fl inputs c b s.heat (baseline s c b) current) now)

transition-Marks :
    (s : AutoSwitcher) (c : AutoConfig) (source b : Bool) (current : PowerMode) (now : ℕ)
    → Marks now s.last_transition_at (transition s c source b current now)
unfolding transition
transition-Marks s c source b current now =
    elim (Bool-cases (not (same source b) || same_mode (preferred c source) current)) [
      | inl over ↦ rw over (inr (refl, refl))
      | inr wanted ↦ elim (Bool-cases (too_soon s now)) [
        | inl soon ↦ rw wanted (rw soon (inr (refl, refl)))
        | inr late ↦ rw wanted (inl (ground arith, ground arith, late))
      ]
    ]

settle-Marks :
    (fl : F64Ops) (s : AutoSwitcher) (inputs : AutoInputs) (c : AutoConfig) (b : Bool)
    (current : PowerMode) (now : ℕ) (d : Option Bool)
    → Marks now s.last_transition_at (settle fl s inputs c b current now d)
settle-Marks fl s inputs c b current now none = refinement-Marks fl s inputs c b current now
settle-Marks fl s inputs c b current now (some source) = transition-Marks s c source b current now

confirm-last :
    (s : AutoSwitcher) (b : Bool) → (confirm s b).0.last_transition_at ≡ s.last_transition_at
unfolding confirm confirm_new
confirm-last s b = ground arith

after_confirm-Marks :
    (fl : F64Ops) (inputs : AutoInputs) (c : AutoConfig) (b : Bool) (current : PowerMode) (now : ℕ)
    (r : AutoSwitcher × Source)
    → Marks now r.0.last_transition_at (after_confirm fl inputs c b current now r)
unfolding after_confirm
after_confirm-Marks fl inputs c b current now (s, unbelieved) = inr (refl, refl)
after_confirm-Marks fl inputs c b current now (s, same_source) =
    settle-Marks fl s inputs c b current now s.deferred_transition
after_confirm-Marks fl inputs c b current now (s, new_source) =
    settle-Marks fl (changed_source s c b) inputs c b current now
      (changed_source s c b).deferred_transition

observe_at-Marks :
    (fl : F64Ops) (s : AutoSwitcher) (inputs : AutoInputs) (c : AutoConfig) (current : PowerMode)
    (now : ℕ)
    → Marks now s.last_transition_at (observe_at fl s inputs c current now)
unfolding observe_at
observe_at-Marks fl s inputs c current now = by_source inputs.on_battery
  where
    s' : AutoSwitcher
    s' = record s { heat = observe_heat s.heat inputs.temp_c c }

    by_source :
        (o : Option Bool)
        → Marks now s.last_transition_at (observe_source fl s' inputs c current now o)
    by_source none = refinement-Marks fl s' inputs c false current now
    by_source (some b) =
        subst (λ l. Marks now l (after_confirm fl inputs c b current now (confirm s' b)))
          (confirm-last s' b) (after_confirm-Marks fl inputs c b current now (confirm s' b))

-- The moments at which a run of samples is answered by a switch for the power source.
abbrev add_moment : Bool → ℕ → List ℕ → List ℕ
add_moment true now rest = now ∷ rest
add_moment false now rest = rest

unfoldable pub transitions : F64Ops → AutoConfig → AutoSwitcher → List Sample → List ℕ
transitions fl c s [] = []
transitions fl c s (t ∷ ts) =
    let (s', d) = observe_at fl s t.inputs c t.current t.now in
    add_moment (is_transition d) t.now (transitions fl c s' ts)

-- The samples come in order of time, from `now` on.
abbrev pub InOrder : ℕ → List Sample → Type 0
InOrder now [] = Unit {0}
InOrder now (t ∷ ts) = (now ≤ t.now) × InOrder t.now ts

abbrev pub NotAfter : ℕ → Option ℕ → Type 0
NotAfter now none = Unit {0}
NotAfter now (some a) = a ≤ now

-- What a step that `Marks` describes means for the moment that it leaves, and for those that follow.
Moved : ℕ → Option ℕ → Option ℕ → Bool → Type 0
Moved now last last' d =
    ((d ≡ true)
      × (last' ≡ some now)
      × (is_some_and last (λ at. ltb (now - at) transition_gap) ≡ false))
    ⊎ ((d ≡ false) × (last' ≡ last))

NotAfter-mono :
    (now later : ℕ) (last : Option ℕ) → now ≤ later → NotAfter now last → NotAfter later last
NotAfter-mono now later none h past = tt
NotAfter-mono now later (some a) h past = omega arith

Moved-NotAfter :
    (now : ℕ) (last last' : Option ℕ) (d : Bool)
    → Moved now last last' d
    → NotAfter now last
    → NotAfter now last'
unfolding Moved
Moved-NotAfter now last last' d (inl (e, f, g)) past = rw f (omega arith)
Moved-NotAfter now last last' d (inr (e, f)) past = rw f past

add_moment-Spaced :
    (now : ℕ) (last last' : Option ℕ) (d : Bool) (rest : List ℕ)
    → Moved now last last' d
    → NotAfter now last
    → Spaced transition_gap last' rest
    → Spaced transition_gap last (add_moment d now rest)
unfolding Moved
add_moment-Spaced now none last' d rest (inl (e, f, g)) past after = rw e (rw f at after)
add_moment-Spaced now (some a) last' d rest (inl (e, f, g)) past after =
    rw e (ground arith, rw f at after)
add_moment-Spaced now last last' d rest (inr (e, f)) past after = rw e (rw f at after)

transitions-Spaced :
    (fl : F64Ops) (c : AutoConfig) (s : AutoSwitcher) (now : ℕ) (ts : List Sample)
    → NotAfter now s.last_transition_at
    → InOrder now ts
    → Spaced transition_gap s.last_transition_at (transitions fl c s ts)
unfolding transitions Moved
transitions-Spaced fl c s now [] past o = tt
transitions-Spaced fl c s now (t ∷ ts) past o =
    add_moment-Spaced t.now s.last_transition_at r.0.last_transition_at (is_transition r.1)
      (transitions fl c r.0 ts) marks past'
      (transitions-Spaced fl c r.0 t.now ts
        (Moved-NotAfter t.now s.last_transition_at r.0.last_transition_at (is_transition r.1) marks
          past')
        o.1)
  where
    r : AutoSwitcher × Option AutoDecision
    r = observe_at fl s t.inputs c t.current t.now

    marks : Moved t.now s.last_transition_at r.0.last_transition_at (is_transition r.1)
    marks = observe_at-Marks fl s t.inputs c t.current t.now

    past' : NotAfter t.now s.last_transition_at
    past' = NotAfter-mono now t.now s.last_transition_at o.0 past

-- However often the cable comes and goes, the supervisor answers the power source at most once in
-- 30 seconds: over a whole run of samples in order of time, two such switches are at least the gap
-- apart.
pub fresh-transitions-Spaced :
    (fl : F64Ops) (c : AutoConfig) (ts : List Sample)
    → InOrder 0 ts
    → Spaced transition_gap none (transitions fl c fresh ts)
fresh-transitions-Spaced fl c ts o = transitions-Spaced fl c fresh 0 ts tt o
