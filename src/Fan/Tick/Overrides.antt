-- ===== src/Fan/Tick/Overrides.antt =====
-- daemon/crates/fan/src/lib.rs: what outranks what in a pass.
use pyren.Base.{
  ℕ, ◌-◌, ◌≡◌, ◌⊎◌, inl, inr, refl, sym, subst, ◌∙◌, ap, Bool, true, false, Bool-cases, Option,
  none, some, List, [], ◌∷◌, leb, leb_F, F64, F64Ops,
}
use pyren.Fan.Mode.{FanMode, auto, max, manual, curve, needs_pwm}
use pyren.Fan.Safety.Critical
use pyren.Fan.Safety.Critical.{critical_c}
use pyren.Fan.Curve.Floor.{reassert_secs}
use pyren.Fan.Tick.{State, TickInputs, Board, apply_pair, Event, Done, drives_gpu_fan_apart}
use pyren.Fan.Tick.Guards.{Guarded, guard, hold, hold_due, held_pass, hottest}
use pyren.Fan.Tick.Pass.{tick_locked, guarded_pass}

-- Nobody else has the fans: no measurement, no cleaning, and the daemon is not on its way out.
pub record IsFree (s : State) : Type 0 where
  pub staying : s.exiting ≡ false
  pub measured : s.calibrating ≡ false
  pub cleaned : s.cleaning ≡ false

pub free_pass :
    (fl : F64Ops) (b : Board) (i : TickInputs) (s : State)
    → IsFree s
    → tick_locked fl b i s
      ≡ guarded_pass fl b
          (drives_gpu_fan_apart b s.config)
          i
          (guard fl (drives_gpu_fan_apart b s.config) i s)
          (hold (guard fl (drives_gpu_fan_apart b s.config) i s))
unfolding tick_locked
free_pass fl b i s f = rw (f.staying, f.measured, f.cleaned) refl

pub hold-critical : (g : Guarded) → g.critical ≡ true → hold g ≡ some max
unfolding hold
hold-critical g e = rw e refl

pub guard-critical :
    (fl : F64Ops) (apart : Bool) (i : TickInputs) (s : State)
    → needs_pwm s.mode ≡ true
    → Critical.observe s.critical (hottest i) ≡ true
    → (guard fl apart i s).critical ≡ true
unfolding guard
guard-critical fl apart i s n c = rw (n, c) refl

-- Full speed is written now, or it was less than a minute ago and nothing else is.
abbrev pub AtFull : TickInputs → State → Done → Type 0
AtFull i s d =
    (d.wrote ≡ apply_pair max 0 0 ∷ [])
    ⊎ ((d.wrote ≡ [])
        × ((at : ℕ) × (s.safety_hold ≡ some (max, at))
            × (leb reassert_secs (i.now_secs - at) ≡ false)))

not_due :
    (h : Option (FanMode × ℕ)) (now : ℕ)
    → hold_due h max now ≡ false
    → (at : ℕ) × (h ≡ some (max, at)) × (leb reassert_secs (now - at) ≡ false)
not_due none now e = cc
not_due (some (max, at)) now e = (at, refl, e)
not_due (some (auto, at)) now e = cc
not_due (some (manual, at)) now e = cc
not_due (some (curve, at)) now e = cc

held-AtFull :
    (b : Board) (i : TickInputs) (events : List Event) (s : State)
    → AtFull i s (held_pass b i.now_secs max events s)
unfolding held_pass
held-AtFull b i events s = elim (Bool-cases (hold_due s.safety_hold max i.now_secs)) [
  | inl due ↦ rw due (inl refl)
  | inr early ↦ rw early (inr (refl, not_due s.safety_hold i.now_secs early))
]

pub observe-hot :
    (active : Bool) (o : Option F64) (t : F64)
    → o ≡ some t
    → leb_F critical_c t ≡ true
    → Critical.observe active o ≡ true
unfolding Critical.observe
observe-hot active o t e h = rw (e, h) refl

-- Heat at or over 90 °C outranks everything that asks for a speed. In a pass in manual or curve mode
-- that nobody else has the fans in, with the hottest usable reading at or over the critical one,
-- whatever the other guards say, whether the daemon owns the mode or not: full speed is what the
-- pass writes to the fans, or it wrote that less than a minute ago and writes nothing.
pub critical-AtFull :
    (fl : F64Ops) (b : Board) (i : TickInputs) (s : State) (t : F64)
    → IsFree s
    → needs_pwm s.mode ≡ true
    → hottest i ≡ some t
    → leb_F critical_c t ≡ true
    → AtFull i s (tick_locked fl b i s)
unfolding guard
critical-AtFull fl b i s t f n e h =
    let apart = drives_gpu_fan_apart b s.config in
    let g = guard fl apart i s in
    let same =
      free_pass fl b i s f
      ∙ ap (guarded_pass fl b apart i g) (
          hold-critical g
            (guard-critical fl apart i s n (observe-hot s.critical (hottest i) t e h))) in
    subst (λ d. AtFull i s d) (sym same) (held-AtFull b i g.events g.state)
