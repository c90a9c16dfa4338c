-- ===== src/Fan/Tick/Refusals.antt =====
-- daemon/crates/fan/src/lib.rs: a write of a guard that the driver refuses.
use pyren.Base.{
  ℕ, ◌≤◌, ◌≡◌, inl, inr, refl, sym, subst, ◌∙◌, ap, Bool, true, false, Bool-cases, Option, none,
  some, List, [], ◌∷◌, leb_F, F64, F64Ops, arith,
}
use pyren.Fan.Mode.{FanMode, max, needs_pwm}
use pyren.Fan.Safety.Critical.{critical_c}
use pyren.Fan.Tick.{
  State, TickInputs, Board, apply_pair, Event, refused, unknown, Done, drives_gpu_fan_apart,
}
use pyren.Fan.Tick.Guards.{guard, hold_due, held_pass, hottest, same_mode}
use pyren.Fan.Tick.Pass.{tick_locked, guarded_pass}
use pyren.Fan.Tick.Overrides.{IsFree, free_pass, hold-critical, guard-critical, observe-hot}

due_later :
    (h : Option (FanMode × ℕ)) (mode : FanMode) (now later : ℕ)
    → now ≤ later
    → hold_due h mode now ≡ true
    → hold_due h mode later ≡ true
due_later none mode now later l e = refl
due_later (some (held, at)) mode now later l e = elim (Bool-cases (same_mode held mode)) [
  | inl same ↦ ground arith
  | inr other ↦ rw other refl
]

-- In heat at or over the critical one, a pass is that of the guard.
hot_pass :
    (fl : F64Ops) (b : Board) (i : TickInputs) (s : State) (t : F64)
    → IsFree s
    → needs_pwm s.mode ≡ true
    → hottest i ≡ some t
    → leb_F critical_c t ≡ true
    → (events : List Event) × (tick_locked fl b i s
        ≡ held_pass b i.now_secs max events (guard fl (drives_gpu_fan_apart b s.config) i s).state)
hot_pass fl b i s t f n e h =
    let apart = drives_gpu_fan_apart b s.config in
    let g = guard fl apart i s in
    (
      g.events,
      free_pass fl b i s f
          ∙ ap (guarded_pass fl b apart i g) (
              hold-critical g
                (guard-critical fl apart i s n (observe-hot s.critical (hottest i) t e h))),
    )

due_writes :
    (b : Board) (now : ℕ) (events : List Event) (s : State)
    → hold_due s.safety_hold max now ≡ true
    → (held_pass b now max events s).wrote ≡ apply_pair max 0 0 ∷ []
unfolding held_pass
due_writes b now events s e = rw e refl

written_due :
    (b : Board) (now : ℕ) (events : List Event) (s : State)
    → (held_pass b now max events s).wrote ≡ apply_pair max 0 0 ∷ []
    → hold_due s.safety_hold max now ≡ true
unfolding held_pass
written_due b now events s e = elim (Bool-cases (hold_due s.safety_hold max now)) [
  | inl due ↦ due
  | inr early ↦ ground (arith, early)
]

-- What a refused write of a guard leaves.
record IsRefused (s : State) (d : Done) : Type 0 where
  outcome : d.outcome ≡ refused
  hardware : d.state.hardware_state ≡ unknown
  held : d.state.safety_hold ≡ s.safety_hold
  mode : d.state.mode ≡ s.mode
  staying : d.state.exiting ≡ s.exiting
  measured : d.state.calibrating ≡ s.calibrating
  cleaned : d.state.cleaning ≡ s.cleaning

held-IsRefused :
    (b : Board) (now : ℕ) (events : List Event) (s : State)
    → b.takes ≡ false
    → hold_due s.safety_hold max now ≡ true
    → IsRefused s (held_pass b now max events s)
unfolding held_pass
held-IsRefused b now events s r e =
    rw (e, r)
      (record {
        outcome = refl;
        hardware = refl;
        held = refl;
        mode = refl;
        staying = refl;
        measured = refl;
        cleaned = refl;
      })

guard-IsRefused :
    (fl : F64Ops) (apart : Bool) (i : TickInputs) (s : State) (d : Done)
    → IsRefused (guard fl apart i s).state d
    → IsRefused s d
unfolding guard
guard-IsRefused fl apart i s d r = record {
  outcome = r.outcome;
  hardware = r.hardware;
  held = r.held;
  mode = r.mode;
  staying = r.staying;
  measured = r.measured;
  cleaned = r.cleaned;
}

guard_hold :
    (fl : F64Ops) (apart : Bool) (i : TickInputs) (s : State)
    → (guard fl apart i s).state.safety_hold ≡ s.safety_hold
unfolding guard
guard_hold fl apart i s = refl

-- Full speed that the driver refused is tried again in the next pass, not a minute later. In heat at
-- or over the critical one, in manual or curve mode with nobody else on the fans: if a pass writes
-- full speed and the driver refuses, the pass is an error and what the hardware does is unknown; and
-- the next pass, while it is as hot, writes full speed again.
pub refused-retries :
    (fl : F64Ops) (b b' : Board) (i i' : TickInputs) (s : State) (t t' : F64)
    → IsFree s
    → needs_pwm s.mode ≡ true
    → hottest i ≡ some t
    → leb_F critical_c t ≡ true
    → hottest i' ≡ some t'
    → leb_F critical_c t' ≡ true
    → i.now_secs ≤ i'.now_secs
    → b.takes ≡ false
    → (tick_locked fl b i s).wrote ≡ apply_pair max 0 0 ∷ []
    → ((tick_locked fl b i s).outcome ≡ refused)
      × ((tick_locked fl b i s).state.hardware_state ≡ unknown)
      × ((tick_locked fl b' i' (tick_locked fl b i s).state).wrote ≡ apply_pair max 0 0 ∷ [])
refused-retries fl b b' i i' s t t' f n e h e' h' l r w =
    let apart = drives_gpu_fan_apart b s.config in
    let s1 = (tick_locked fl b i s).state in
    let (events, p) = hot_pass fl b i s t f n e h in
    let due =
      written_due b i.now_secs events (guard fl apart i s).state (sym (ap (λ d. d.wrote) p) ∙ w) in
    let k = subst (IsRefused s) (sym p) (
      guard-IsRefused fl apart i s (held_pass b i.now_secs max events (guard fl apart i s).state)
        (held-IsRefused b i.now_secs events (guard fl apart i s).state r due)) in
    let f1 : IsFree s1 = record {
      staying = k.staying ∙ f.staying;
      measured = k.measured ∙ f.measured;
      cleaned = k.cleaned ∙ f.cleaned;
    } in
    let (events', p') = hot_pass fl b' i' s1 t' f1 (ap needs_pwm k.mode ∙ n) e' h' in
    let due' =
      due_later s.safety_hold max i.now_secs i'.now_secs l
        (ap (λ o. hold_due o max i.now_secs) (sym (guard_hold fl apart i s)) ∙ due) in
    (
      k.outcome,
      k.hardware,
      ap (λ d. d.wrote) p'
          ∙ due_writes b' i'.now_secs events'
              (guard fl (drives_gpu_fan_apart b' s1.config) i' s1).state
              (ap (λ o. hold_due o max i'.now_secs)
                  (guard_hold fl (drives_gpu_fan_apart b' s1.config) i' s1 ∙ k.held)
                ∙ due'),
    )
