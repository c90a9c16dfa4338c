-- ===== src/Overclock/Trial/Applied.antt =====
-- daemon/crates/overclock/src/lib.rs: what an apply leaves on the card and in the state.
use pyren.Base.{
  ℕ, suc, ◌≡◌, ◌⊎◌, inl, inr, refl, sym, subst, ◌∙◌, ap, Bool, true, false, Option, none, some,
  List, [], ◌∷◌, arith, not, is_some, map_opt,
}
use pyren.Overclock.Plan.{Target}
use pyren.Overclock.Plan.Climbing.{enough, IsClimb, Askable, ramp-IsClimb}
use pyren.Overclock.Trial.{nvidia, GpuProbe, Error, ErrorKind, stopped_at, Attempt, World, Driver}
use pyren.Overclock.Trial.Card.{
  write_target, write_at, verify, put_back, climb_steps, climb, attempt, driver_error, kept_kind,
}

abbrev pub tried : GpuProbe → Target → Bool → Attempt
tried g t took = record { gpu = g.id; target = t; took = took }

-- The attempts, newest first, when the driver takes every step.
abbrev pub all_taken : GpuProbe → List Target → List Attempt → List Attempt
all_taken g [] ws = ws
all_taken g (t ∷ ts) ws = all_taken g ts (tried g t true ∷ ws)

-- Every step's write is taken, and what is read back matches, from the driver's `c`-th call on. A
-- step is two calls.
abbrev pub Passes : Driver → GpuProbe → ℕ → Target → Type 0
Passes d g c t = (d.write c g t ≡ none) × (d.verify (suc c) g t ≡ none)

abbrev pub AllPass : Driver → GpuProbe → ℕ → List Target → Type 0
AllPass d g c [] = Unit
AllPass d g c (t ∷ ts) = Passes d g c t × AllPass d g (suc (suc c)) ts

abbrev pub took : Option ErrorKind → Bool
took answer = not (is_some answer)

-- The error of a step: the driver's kind, the step, and where the climb began.
abbrev pub stopped : Target → Target → ErrorKind → Error
stopped step from k = record { kind = kept_kind k; reason = stopped_at step from }

-- A step fails by its write, or by what is read back; the next call is a write of `from`, whatever
-- the driver answers it.
abbrev pub Fails :
    Driver → GpuProbe → Target → ℕ → Target → List Attempt → List Attempt → Error → Type 0
Fails d g from c t before after e =
    (k : ErrorKind) × (e ≡ stopped t from k)
    × (((d.write c g t ≡ some k)
          × (after ≡ tried g from (took (d.write (suc c) g from)) ∷ tried g t false ∷ before))
        ⊎ ((d.write c g t ≡ none)
            × (d.verify (suc c) g t ≡ some k)
            × (after
                ≡ tried g from (took (d.write (suc (suc c)) g from)) ∷ tried g t true ∷ before)))

-- The attempts when a step fails: those before it passed.
abbrev pub Stopped :
    Driver → GpuProbe → Target → ℕ → List Target → List Attempt → List Attempt → Error → Type 0
Stopped d g from c [] before after e = ⊥
Stopped d g from c (t ∷ ts) before after e =
    Fails d g from c t before after e
    ⊎ (Passes d g c t × Stopped d g from (suc (suc c)) ts (tried g t true ∷ before) after e)

abbrev pub Ends :
    Driver → GpuProbe → Target → ℕ → List Target → List Attempt → World × Option Error → Type 0
Ends d g from c steps before x =
    ((x.1 ≡ none) × AllPass d g c steps × (x.0.written ≡ all_taken g steps before))
    ⊎ ((e : Error) × (x.1 ≡ some e) × Stopped d g from c steps before x.0.written e)

pub write_nvidia :
    (d : Driver) (g : GpuProbe) (t : Target) (w : World)
    → g.vendor ≡ nvidia
    → write_target d g t w
      ≡ (attempt w g t (d.write w.calls g t), map_opt driver_error (d.write w.calls g t))
unfolding write_target write_at
write_nvidia d g t w e = rw e refl

verify_nvidia :
    (d : Driver) (g : GpuProbe) (t : Target) (w : World)
    → g.vendor ≡ nvidia
    → verify d g t w
      ≡ (record w { calls = suc w.calls }, map_opt driver_error (d.verify w.calls g t))
unfolding verify
verify_nvidia d g t w e = rw e refl

Ends-step :
    (d : Driver) (g : GpuProbe) (from t : Target) (ts : List Target) (c : ℕ) (before : List Attempt)
    (x : World × Option Error)
    → Passes d g c t
    → Ends d g from (suc (suc c)) ts (tried g t true ∷ before) x
    → Ends d g from c (t ∷ ts) before x
Ends-step d g from t ts c before x p (inl (n, all, k)) = inl (n, (p, all), k)
Ends-step d g from t ts c before x p (inr (e, q, st)) = inr (e, q, inr (p, st))

put_back-written :
    (d : Driver) (g : GpuProbe) (from t : Target) (w : World) (x : Error)
    → g.vendor ≡ nvidia
    → (put_back d g from t w x).0.written ≡ tried g from (took (d.write w.calls g from)) ∷ w.written
put_back-written d g from t w x v = rw (write_nvidia d g from w v) refl

-- What a step comes to, by what its write and its read-back came to.
abbrev step_end :
    Driver
    → GpuProbe
    → Target
    → Target
    → List Target
    → World × Option Error
    → World × Option Error
    → World × Option Error
step_end d g from t ts x y = elim x.1 [
  | some e ↦ put_back d g from t x.0 e
  | none ↦ elim y.1 [ some e ↦ put_back d g from t y.0 e | none ↦ climb_steps d g from ts y.0 ]
]

climb_steps-step :
    (d : Driver) (g : GpuProbe) (from t : Target) (ts : List Target) (w : World)
    → climb_steps d g from (t ∷ ts) w
      ≡ step_end d g from t ts (write_target d g t w) (verify d g t (write_target d g t w).0)
unfolding climb_steps
climb_steps-step d g from t ts w = refl

climb_steps-Ends :
    (d : Driver) (g : GpuProbe) (from : Target) (steps : List Target) (w : World)
    → g.vendor ≡ nvidia
    → Ends d g from w.calls steps w.written (climb_steps d g from steps w)
unfolding climb_steps
climb_steps-Ends d g from [] w v = inl (refl, tt, refl)
climb_steps-Ends d g from (t ∷ ts) w v =
    subst (λ x. Ends d g from w.calls (t ∷ ts) w.written x)
      (sym (
        climb_steps-step d g from t ts w
        ∙ ap (λ x. step_end d g from t ts x (verify d g t x.0)) (write_nvidia d g t w v)
        ∙ ap (step_end d g from t ts (w1, map_opt driver_error (d.write w.calls g t)))
            (verify_nvidia d g t w1 v)))
      (go (d.write w.calls g t) (d.verify (suc w.calls) g t) refl refl
        (climb_steps-Ends d g from ts w2 v))
  where
    w1 : World
    w1 = attempt w g t (d.write w.calls g t)

    w2 : World
    w2 = record w1 { calls = suc w1.calls }

    go :
        (o p : Option ErrorKind)
        → d.write w.calls g t ≡ o
        → d.verify (suc w.calls) g t ≡ p
        → Ends d g from
            (suc (suc w.calls))
            ts
            (tried g t (took (d.write w.calls g t)) ∷ w.written)
            (climb_steps d g from ts w2)
        → Ends d g from w.calls
            (t ∷ ts)
            w.written
            (step_end d g from t ts (w1, map_opt driver_error o) (w2, map_opt driver_error p))
    go (some k) p q r h = inr (
      stopped t from k,
      refl,
      inl (k, refl, inl (q, put_back-written d g from t w1 (driver_error k) v ∙ rw q refl)),
    )
    go none (some k) q r h = inr (
      stopped t from k,
      refl,
      inl (k, refl, inr (q, r, put_back-written d g from t w2 (driver_error k) v ∙ rw q refl)),
    )
    go none none q r h =
        Ends-step d g from t ts w.calls w.written (climb_steps d g from ts w2) (q, r)
          (subst
            (λ o.
              Ends d g from (suc (suc w.calls)) ts (tried g t (took o) ∷ w.written)
                (climb_steps d g from ts w2))
            q h)

-- What a climb writes. On a card that can be driven, between targets whose offsets are `i32` with
-- differences that are, the climb takes the steps of the ramp, which lead to the target. It ends
-- without an error only if the driver took the write of every step, and what was read back after
-- each matched; then the steps, in their order, are all that was written. Otherwise a step failed,
-- by its write or by what was read back: the steps before it passed, the error names that step and
-- where the climb began, with the driver's kind as far as a client branches on it, and the last
-- attempt is to write where the climb began, which the driver may take or refuse.
pub climb-Ends :
    (d : Driver) (g : GpuProbe) (from to : Target) (w : World)
    → g.vendor ≡ nvidia
    → Askable from to
    → (steps : List Target) × IsClimb from steps to
      × Ends d g from w.calls steps w.written (climb d g from to w)
unfolding climb
climb-Ends d g from to w v a =
    let (steps, found, c) = ramp-IsClimb from to (enough from to) a (omega arith) in
    (steps, c, rw found (climb_steps-Ends d g from steps w v))
