-- ===== src/Power/Auto/Switcher/Decisions.antt =====
-- What a decision of the supervisor of daemon/crates/power/src/auto.rs can be.
use pyren.Base.{
  ℕ, ◌+◌, ◌≤◌, ◌≡◌, inl, inr, refl, Bool, true, false, not, ◌&&◌, Option, none, some, List, [], ◌∷◌,
  leb, if◌then◌else◌, F64Ops, max, same, arith, Bool-cases, All, leb→le, sym, ap, subst,
}
use pyren.Power.Mode.{PowerMode, unlimited, same_mode}
use pyren.Power.Auto.Config.{AutoConfig, AutoInputs, observe_heat, preferred, system_enabled}
use pyren.Power.Auto.Refine.{refine, Why}
use pyren.Power.Auto.Switcher.{
  AutoSwitcher, AutoDecision, Source, same_source, new_source, unbelieved, too_soon, agreeing,
  pursue, refinement, confirm, confirm_new, transition, after_confirm, settle, observe_source,
  observe_at, changed_source, baseline, Sample, fresh,
}

-- How many samples the refinement under way has had.
abbrev pub count_of : Option (PowerMode × ℕ) → ℕ
count_of none = 0
count_of (some (m, n)) = n

-- How many samples are kept as asking for the mode.
abbrev pub asked : Option (PowerMode × ℕ) → PowerMode → ℕ
asked none m = 0
asked (some (p, n)) m = if same_mode p m then n else 0

-- What is kept after a sample is a mode with at most one sample more than was kept for that mode.
abbrev pub Counts : Option (PowerMode × ℕ) → Option (PowerMode × ℕ) → Type 0
Counts before none = Unit
Counts before (some (m, n)) = n ≤ asked before m + 1

-- What is true of every decision, and of what is kept of the refinement under way.
abbrev pub IsSound :
    AutoConfig
    → AutoInputs
    → PowerMode
    → Option (PowerMode × ℕ)
    → Option AutoDecision
    → Option (PowerMode × ℕ)
    → Type 0
IsSound c inputs current before none after = Counts before after
IsSound c inputs current before (some d) after =
    (same_mode d.mode current ≡ false)
    × Counts before after
    × (d.from_transition ≡ true
        → (b : Bool) × (inputs.on_battery ≡ some b)
          × (d.mode ≡ preferred c b)
          × (d.from_heat ≡ false))
    × (d.from_transition ≡ false
        → (same_mode current unlimited ≡ false)
          × (max c.samples_to_switch 1 ≤ asked before d.mode + 1)
          × (after ≡ none))

agreeing-asked : (p : Option (PowerMode × ℕ)) (m : PowerMode) → agreeing p m ≡ asked p m + 1
agreeing-asked none m = refl
agreeing-asked (some (p, n)) m = ground arith

Counts-same : (p : Option (PowerMode × ℕ)) → Counts p p
Counts-same none = tt
Counts-same (some (m, n)) = ground arith

-- A switch of the source forgets what was kept.
Counts-forgotten : (p q : Option (PowerMode × ℕ)) → Counts none q → Counts p q
Counts-forgotten p none h = tt
Counts-forgotten p (some (m, n)) h = omega arith

asked-count : (p : Option (PowerMode × ℕ)) (m : PowerMode) → asked p m ≤ count_of p
asked-count none m = omega arith
asked-count (some (p, n)) m = ground arith

Counts-count : (p q : Option (PowerMode × ℕ)) → Counts p q → count_of q ≤ count_of p + 1
Counts-count p none h = omega arith
Counts-count p (some (m, n)) h = omega (arith, asked-count p m)

pursue-IsSound :
    (s : AutoSwitcher) (c : AutoConfig) (inputs : AutoInputs) (current : PowerMode)
    (r : Option (PowerMode × Why))
    → same_mode current unlimited ≡ false
    → let (s', d) = pursue s c current r in IsSound c inputs current s.pending d s'.pending
unfolding pursue
pursue-IsSound s c inputs current none h = tt
pursue-IsSound s c inputs current (some (target, why)) h =
    elim (Bool-cases (same_mode target current)) [
      | inl there ↦ rw there tt
      | inr away ↦ elim (Bool-cases (leb (max c.samples_to_switch 1) (agreeing s.pending target))) [
        | inl held ↦ rw away (
            rw held (
              away,
              tt,
              λ e. cc,
              λ e. (h, omega (arith, leb→le _ _ held, agreeing-asked s.pending target), refl),
            ))
        | inr short ↦ rw away (rw short (omega (arith, agreeing-asked s.pending target)))
      ]
    ]

refinement-IsSound :
    (fl : F64Ops) (s : AutoSwitcher) (inputs : AutoInputs) (c : AutoConfig) (b : Bool)
    (current : PowerMode)
    → let (s', d) = refinement fl s inputs c b current in
      IsSound c inputs current s.pending d s'.pending
unfolding refinement
refinement-IsSound fl s inputs c b current = elim (Bool-cases (same_mode current unlimited)) [
  | inl top ↦ rw top tt
  | inr under ↦
      elim (Bool-cases (not (system_enabled b c) && not (s.heat && c.back_off_when_hot))) [
        | inl idle ↦ rw under (rw idle tt)
        | inr active ↦ rw under (
            rw active (
              pursue-IsSound s c inputs current
                (refine fl inputs c b s.heat (baseline s c b) current) under))
      ]
]

same-eq : (a b : Bool) → same a b ≡ true → a ≡ b
same-eq true b h = sym h
same-eq false true h = cc
same-eq false false h = refl

transition-IsSound :
    (s : AutoSwitcher) (inputs : AutoInputs) (c : AutoConfig) (source b : Bool)
    (current : PowerMode) (now : ℕ)
    → inputs.on_battery ≡ some b
    → let (s', d) = transition s c source b current now in
      IsSound c inputs current s.pending d s'.pending
unfolding transition
transition-IsSound s inputs c source b current now e = elim (Bool-cases (same source b)) [
  | inr other ↦ rw other (Counts-same s.pending)
  | inl known ↦ elim (Bool-cases (same_mode (preferred c source) current)) [
    | inl there ↦ rw known (rw there (Counts-same s.pending))
    | inr away ↦ elim (Bool-cases (too_soon s now)) [
      | inl soon ↦ rw known (rw away (rw soon (Counts-same s.pending)))
      | inr late ↦ rw known (
          rw away (
            rw late (
              away,
              Counts-same s.pending,
              λ t. (b, e, ap (preferred c) (same-eq source b known), refl),
              λ t. cc,
            )))
    ]
  ]
]

IsSound-forgotten :
    (c : AutoConfig) (inputs : AutoInputs) (current : PowerMode)
    (before after : Option (PowerMode × ℕ)) (d : Option AutoDecision)
    → IsSound c inputs current none d after
    → IsSound c inputs current before d after
IsSound-forgotten c inputs current before after none i = Counts-forgotten before after i
IsSound-forgotten c inputs current before after (some d) i = (
  i.0,
  Counts-forgotten before after i.1,
  i.2,
  λ e. ((i.3 e).0, omega (arith, (i.3 e).1), (i.3 e).2),
)

settle-IsSound :
    (fl : F64Ops) (s : AutoSwitcher) (inputs : AutoInputs) (c : AutoConfig) (b : Bool)
    (current : PowerMode) (now : ℕ) (o : Option Bool)
    → inputs.on_battery ≡ some b
    → let (s', d) = settle fl s inputs c b current now o in
      IsSound c inputs current s.pending d s'.pending
settle-IsSound fl s inputs c b current now none e = refinement-IsSound fl s inputs c b current
settle-IsSound fl s inputs c b current now (some source) e =
    transition-IsSound s inputs c source b current now e

after_confirm-IsSound :
    (fl : F64Ops) (inputs : AutoInputs) (c : AutoConfig) (b : Bool) (current : PowerMode) (now : ℕ)
    (r : AutoSwitcher × Source)
    → inputs.on_battery ≡ some b
    → let (s', d) = after_confirm fl inputs c b current now r in
      IsSound c inputs current r.0.pending d s'.pending
unfolding after_confirm
after_confirm-IsSound fl inputs c b current now (s, unbelieved) e = Counts-same s.pending
after_confirm-IsSound fl inputs c b current now (s, same_source) e =
    settle-IsSound fl s inputs c b current now s.deferred_transition e
after_confirm-IsSound fl inputs c b current now (s, new_source) e =
    let s' : AutoSwitcher = changed_source s c b in
    let r : AutoSwitcher × Option AutoDecision =
      settle fl s' inputs c b current now s'.deferred_transition in
    IsSound-forgotten c inputs current s.pending r.0.pending r.1
      (settle-IsSound fl s' inputs c b current now s'.deferred_transition e)

confirm-pending : (s : AutoSwitcher) (b : Bool) → (confirm s b).0.pending ≡ s.pending
unfolding confirm confirm_new
confirm-pending s b = ground arith

-- Every decision moves to another mode. One that is made for the power source goes to the preferred
-- mode of the source just sampled. Any other one leaves Unlimited alone, and comes only if the
-- samples that were kept for the very mode it goes to are, with this one, at least the samples to
-- switch; nothing is kept after it. After any sample, what is kept is nothing, or a
-- mode with at most one sample more than was kept for that same mode before.
pub observe_at-IsSound :
    (fl : F64Ops) (s : AutoSwitcher) (inputs : AutoInputs) (c : AutoConfig) (current : PowerMode)
    (now : ℕ)
    → let (s', d) = observe_at fl s inputs c current now in
      IsSound c inputs current s.pending d s'.pending
unfolding observe_at
observe_at-IsSound fl s inputs c current now = by_source inputs.on_battery refl
  where
    s' : AutoSwitcher
    s' = record s { heat = observe_heat s.heat inputs.temp_c c }

    by_source :
        (o : Option Bool)
        → inputs.on_battery ≡ o
        → let r = observe_source fl s' inputs c current now o in
          IsSound c inputs current s.pending r.1 r.0.pending
    by_source none e = refinement-IsSound fl s' inputs c false current
    by_source (some b) e =
        subst
          (λ p.
            IsSound c inputs current p (after_confirm fl inputs c b current now (confirm s' b)).1
              (after_confirm fl inputs c b current now (confirm s' b)).0.pending)
          (confirm-pending s' b) (after_confirm-IsSound fl inputs c b current now (confirm s' b) e)

abbrev pub is_refinement : Option AutoDecision → Bool
is_refinement none = false
is_refinement (some d) = not d.from_transition

-- Over a run of samples: how many it took to each refinement, since the one before it or the start.
abbrev add_gap : Bool → ℕ → List ℕ → List ℕ → List ℕ
add_gap true k after_one after_none = k ∷ after_one
add_gap false k after_one after_none = after_none

pub gaps : F64Ops → AutoConfig → AutoSwitcher → ℕ → List Sample → List ℕ
gaps fl c s k [] = []
gaps fl c s k (t ∷ ts) =
    let (s', d) = observe_at fl s t.inputs c t.current t.now in
    let rest = gaps fl c s' (if is_refinement d then 0 else k + 1) ts in
    if is_refinement d then (k + 1) ∷ rest else rest

count-step :
    (c : AutoConfig) (inputs : AutoInputs) (current : PowerMode)
    (before after : Option (PowerMode × ℕ)) (k : ℕ) (d : Option AutoDecision)
    → count_of before ≤ k
    → IsSound c inputs current before d after
    → (count_of after ≤ (if is_refinement d then 0 else k + 1))
      × (is_refinement d ≡ true → max c.samples_to_switch 1 ≤ k + 1)
count-step c inputs current before after k none h i =
    (omega (arith, Counts-count before after i), λ e. cc)
count-step c inputs current before after k (some d) h i = elim (Bool-cases d.from_transition) [
  | inl t ↦ rw t (omega (arith, Counts-count before after i.1), λ e. cc)
  | inr f ↦ rw f (
    subst (λ p. count_of p ≤ 0) (sym (i.3 f).2) (omega arith),
    λ e. omega (arith, (i.3 f).1, asked-count before d.mode),
  )
]

gaps-bound :
    (fl : F64Ops) (c : AutoConfig) (s : AutoSwitcher) (k : ℕ) (ts : List Sample)
    → count_of s.pending ≤ k
    → All (λ g. max c.samples_to_switch 1 ≤ g) (gaps fl c s k ts)
unfolding gaps
gaps-bound fl c s k [] h = tt
gaps-bound fl c s k (t ∷ ts) h = elim (Bool-cases (is_refinement r.1)) [
  | inl yes_one ↦ rw yes_one (step.1 yes_one, gaps-bound fl c r.0 0 ts (rw yes_one at (step.0)))
  | inr no_one ↦ rw no_one (gaps-bound fl c r.0 (k + 1) ts (rw no_one at (step.0)))
]
  where
    r : AutoSwitcher × Option AutoDecision
    r = observe_at fl s t.inputs c t.current t.now

    step :
        (count_of r.0.pending ≤ (if is_refinement r.1 then 0 else k + 1))
        × (is_refinement r.1 ≡ true → max c.samples_to_switch 1 ≤ k + 1)
    step =
        count-step c t.inputs t.current s.pending r.0.pending k r.1 h
          (observe_at-IsSound fl s t.inputs c t.current t.now)

-- Over any run of samples, each refinement comes at least the configured number of samples (at least
-- one) after the one before it, or after the start.
pub fresh-gaps_bound :
    (fl : F64Ops) (c : AutoConfig) (ts : List Sample)
    → All (λ g. max c.samples_to_switch 1 ≤ g) (gaps fl c fresh 0 ts)
fresh-gaps_bound fl c ts = gaps-bound fl c fresh 0 ts (omega arith)
