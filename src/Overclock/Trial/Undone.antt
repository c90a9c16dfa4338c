-- ===== src/Overclock/Trial/Undone.antt =====
-- daemon/crates/overclock/src/lib.rs: an unconfirmed change is taken back, by the first round of the
-- watchdog whose write the driver takes.
use pyren.Base.{
  ℕ, zero, suc, Option-cases, ◌+◌, ◌*◌, ◌⊎◌, ◌≡◌, refl, sym, ◌∙◌, subst, ltb, ◌≤◌, ◌<◌, Bool, false,
  Bool-cases, inl, inr, Option, none, some, List, [], ◌∷◌, arith, if◌then◌else◌,
}
use pyren.Overclock.Trial.{
  nvidia, GpuProbe, ErrorKind, Pending, revert_failed, RevertReason, Driver, System, retry_ms,
}
use pyren.Overclock.Trial.Methods.{find_gpu}
use pyren.Overclock.Trial.Watchdog.{retry_ready, watchdog_tick, watchdog_acts, watchdog_round}
use pyren.Overclock.Trial.Rounds.{IsDue, IsUndone, taken_round, refused_round}

-- A round with the fault watch's word, at a time.
abbrev pub Wake : Type 0
Wake = Bool × ℕ

abbrev pub rounds : Driver → List GpuProbe → List Wake → System → System
rounds d probe [] s = s
rounds d probe ((fault, now) ∷ ts) s = rounds d probe ts (watchdog_round d probe fault now s)

-- The wakes are in order from `from` on, and none is more than `gap` after the one before it.
abbrev pub InStep : ℕ → ℕ → List Wake → Type 0
InStep gap from [] = Unit
InStep gap from ((fault, now) ∷ ts) = (from ≤ now) × (now ≤ from + gap) × InStep gap now ts

-- Some wake is at `t` or later.
abbrev pub Reaches : ℕ → List Wake → Type 0
Reaches t [] = ⊥
Reaches t ((fault, now) ∷ ts) = (t ≤ now) ⊎ Reaches t ts

Reaches-mono : (t u : ℕ) (ts : List Wake) → t ≤ u → Reaches u ts → Reaches t ts
Reaches-mono t u [] h r = elim r [ ]
Reaches-mono t u ((fault, now) ∷ ts) h (inl r) = inl (omega arith)
Reaches-mono t u ((fault, now) ∷ ts) h (inr r) = inr (Reaches-mono t u ts h r)

early_round :
    (d : Driver) (probe : List GpuProbe) (fault : Bool) (now : ℕ) (s : System)
    → retry_ready s.state.next_retry now ≡ false
    → watchdog_round d probe fault now s ≡ s
unfolding watchdog_round
early_round d probe fault now s early = rw early refl

idle_round :
    (d : Driver) (probe : List GpuProbe) (fault : Bool) (now : ℕ) (s : System)
    → s.state.pending ≡ none
    → watchdog_round d probe fault now s ≡ s
unfolding watchdog_round
idle_round d probe fault now s n = elim (Bool-cases (retry_ready s.state.next_retry now)) [
  | inl ready ↦ rw ready (
      go s.state.pending
        (watchdog_tick s.state.pending (if s.state.fault_watch then fault else false) now) n)
  | inr early ↦ rw early refl
]
  where
    go :
        (o : Option Pending) (r : Option RevertReason)
        → o ≡ none
        → watchdog_acts d probe now s o r ≡ s
    go none r e = refl
    go (some q) r e = cc

IsUndone-stays :
    (d : Driver) (probe : List GpuProbe) (p : Pending) (g : GpuProbe) (ts : List Wake) (s : System)
    → IsUndone p g s
    → IsUndone p g (rounds d probe ts s)
IsUndone-stays d probe p g [] s u = u
IsUndone-stays d probe p g ((fault, now) ∷ ts) s u =
    IsUndone-stays d probe p g ts (watchdog_round d probe fault now s)
      (subst (λ x. IsUndone p g x) (sym (idle_round d probe fault now s u.0)) u)

some-none : (k : ErrorKind) → ◌≡◌ {A = Option ErrorKind} (some k) none → ⊥
some-none k e = cc

-- Before `at`, and from `from` on, the thread wakes too early to do anything.
abbrev IsEarly : ℕ → ℕ → System → Type 0
IsEarly from at s = (t : ℕ) → from ≤ t → t < at → retry_ready s.state.next_retry t ≡ false

refused-IsEarly : (s : System) (at : ℕ) → s.state.next_retry ≡ some at → IsEarly 0 at s
refused-IsEarly s at e t h k = rw e (ground arith)

early-Reaches :
    (at m now : ℕ) (fault : Bool) (ts : List Wake)
    → now < at
    → Reaches (at + m) ((fault, now) ∷ ts)
    → Reaches (at + m) ts
early-Reaches at m now fault ts h (inl r) = ground arith
early-Reaches at m now fault ts h (inr r) = r

-- After a refusal the next try is due `retry_ms` later, and the thread wakes at most `gap` after.
refused-Reaches :
    (at n gap now : ℕ) (fault : Bool) (ts : List Wake)
    → now ≤ at + gap
    → Reaches (at + suc n * (retry_ms + gap)) ((fault, now) ∷ ts)
    → Reaches (now + retry_ms + n * (retry_ms + gap)) ts
refused-Reaches at n gap now fault ts h (inl r) = ground arith
refused-Reaches at n gap now fault ts h (inr r) =
    Reaches-mono (now + retry_ms + n * (retry_ms + gap)) (at + suc n * (retry_ms + gap)) ts
      (omega arith) r

module _ (d : Driver) (probe : List GpuProbe) (g : GpuProbe) (driven : g.vendor ≡ nvidia)
    (gap : ℕ) where
  due_rounds :
      (p : Pending) (n at from : ℕ) (ts : List Wake) (s : System)
      → find_gpu p.gpu probe ≡ some g
      → IsDue at p s.state
      → from ≤ at
      → IsEarly from at s
      → InStep gap from ts
      → Reaches (at + n * (retry_ms + gap)) ts
      → d.write (s.world.calls + n) g p.revert_to ≡ none
      → IsUndone p g (rounds d probe ts s)
  due_rounds p n at from [] s f due h early w r t = elim r [ ]
  due_rounds p zero at from ((fault, now) ∷ ts) s f due h early (a, b, w) r t =
      elim (Bool-cases (ltb now at)) [
        | inl soon ↦
            subst (λ x. IsUndone p g (rounds d probe ts x))
              (sym (early_round d probe fault now s (early now a (ground arith))))
              (due_rounds p zero at now ts s f due (ground arith) (λ u i k. early u (omega arith) k)
                w (early-Reaches at (zero * (retry_ms + gap)) now fault ts (ground arith) r) t)
        | inr late ↦ elim (Option-cases (d.write s.world.calls g p.revert_to)) [
          | inl took ↦
              IsUndone-stays d probe p g ts (watchdog_round d probe fault now s)
                (taken_round d probe p g f driven fault at now s due (ground arith) took)
          | inr (k, refused) ↦
              elim (some-none k
                (sym refused ∙ subst (λ c. d.write c g p.revert_to ≡ none) (omega arith) t)) [ ]
        ]
      ]
  due_rounds p (suc n) at from ((fault, now) ∷ ts) s f due h early (a, b, w) r t =
      elim (Bool-cases (ltb now at)) [
        | inl soon ↦
            subst (λ x. IsUndone p g (rounds d probe ts x))
              (sym (early_round d probe fault now s (early now a (ground arith))))
              (due_rounds p (suc n) at now ts s f due (ground arith)
                (λ u i k. early u (omega arith) k) w
                (early-Reaches at ((suc n) * (retry_ms + gap)) now fault ts (ground arith) r) t)
        | inr late ↦ elim (Option-cases (d.write s.world.calls g p.revert_to)) [
          | inl took ↦
              IsUndone-stays d probe p g ts (watchdog_round d probe fault now s)
                (taken_round d probe p g f driven fault at now s due (ground arith) took)
          | inr (k, refused) ↦
              let (due', calls, next) =
                refused_round d probe p g f driven fault at now s k due (ground arith) refused in
              let s' = watchdog_round d probe fault now s in
              due_rounds (record p { phase = revert_failed }) n (now + retry_ms) now ts s' f due'
                (omega arith) (λ u i k. refused-IsEarly s' (now + retry_ms) next u (omega arith) k)
                w (refused-Reaches at n gap now fault ts (omega arith) r)
                (subst (λ c. d.write c g p.revert_to ≡ none) (omega (arith, calls)) t)
        ]
      ]

-- A change that nobody confirmed is taken back, on the card as well as in the state. Take a state in
-- which the change is past its deadline, or a write to take it back has failed, and the time `at` to
-- try has come, with its card on the machine and drivable. Let the watchdog wake in order from `at`
-- on, at any times, none more than `gap` after the one before it. If the driver takes the write at
-- its n-th call from then, counted from 0, and a wake is at or after `at` plus n times the 3 s of a
-- retry and the gap, then after these rounds the change is not on trial, the target from before it is
-- the card's applied one, and the last write of all was that target, to that card, and was taken.
pub rounds-IsUndone :
    (d : Driver) (probe : List GpuProbe) (p : Pending) (g : GpuProbe) (n at gap : ℕ)
    (ts : List Wake) (s : System)
    → find_gpu p.gpu probe ≡ some g
    → g.vendor ≡ nvidia
    → IsDue at p s.state
    → InStep gap at ts
    → Reaches (at + n * (retry_ms + gap)) ts
    → d.write (s.world.calls + n) g p.revert_to ≡ none
    → IsUndone p g (rounds d probe ts s)
rounds-IsUndone d probe p g n at gap ts s f v due w r t =
    due_rounds d probe g v gap p n at at ts s f due (omega arith) (λ u i k. ground arith) w r t
