-- ===== src/Overclock/Trial/Exclusive.antt =====
-- daemon/crates/overclock/src/lib.rs: a change that is being taken back is left alone until that ends.
use pyren.Base.{
  ℕ, ◌≡◌, subst, refl, Bool, true, false, Bool-cases, inl, inr, Option, none, some, List, arith,
  map_opt, if◌then◌else◌,
}
use mathlib.Core.Option.{some-injective}
use pyren.Overclock.Trial.{
  GpuProbe, busy, being_reverted, Pending, PendingPhase, reverting, State, Driver, System,
  RevertReason,
}
use pyren.Overclock.Trial.Methods.{error}
use pyren.Overclock.Trial.Reset.{confirm, confirm_pending, confirm_phase, with_phase}
use pyren.Overclock.Trial.Watchdog.{
  begin_revert, revert_starts, revert, cancel, cancel_pending, watchdog_round, watchdog_acts,
  watchdog_tick, tick_phase, retry_ready,
}

-- Somebody is taking the change back.
abbrev pub IsTaken : Option Pending → Type 0
IsTaken o = (p : Pending) × (o ≡ some p) × (p.phase ≡ reverting)

reversed-IsTaken :
    (o : Option Pending) (c : Pending)
    → o ≡ some c
    → IsTaken (map_opt {A = Pending} {B = Pending} (λ p. record p { phase = reverting }) o)
reversed-IsTaken o c e = rw e (record c { phase = reverting }, refl, refl)

begun :
    (s m : State) (starts : Bool) (c : Pending)
    → s.pending ≡ some c
    → (if starts then some (with_phase reverting s) else none) ≡ some m
    → IsTaken m.pending
begun s m false c e q = cc
begun s m true c e q =
    subst (λ x. IsTaken x.pending) (some-injective (with_phase reverting s) m q)
      (reversed-IsTaken s.pending c e)

begun_any :
    (s m : State) (p : Pending) (o : Option Pending)
    → s.pending ≡ o
    → (if revert_starts o p then some (with_phase reverting s) else none) ≡ some m
    → IsTaken m.pending
begun_any s m p none e q = cc
begun_any s m p (some c) e q = begun s m (revert_starts (some c) p) c e q

begin-IsTaken : (s m : State) (p : Pending) → begin_revert s p ≡ some m → IsTaken m.pending
unfolding begin_revert
begin-IsTaken s m p e = begun_any s m p s.pending refl e

taken-none : (s : State) (p : Pending) → IsTaken s.pending → begin_revert s p ≡ none
unfolding begin_revert
taken-none s p (q, e, f) = rw e (ground arith)

phase_busy :
    (d : Driver) (s : System) (p : Pending) (phase : PendingPhase)
    → phase ≡ reverting
    → confirm_phase d s p phase ≡ (s, some (error busy being_reverted))
phase_busy d s p phase e = rw e refl

pending_busy :
    (d : Driver) (s : System) (o : Option Pending) (p : Pending)
    → o ≡ some p
    → p.phase ≡ reverting
    → confirm_pending d s o ≡ (s, some (error busy being_reverted))
pending_busy d s o p e f = rw e (phase_busy d s p p.phase f)

confirm-busy :
    (d : Driver) (s : System)
    → IsTaken s.state.pending
    → confirm d s ≡ (s, some (error busy being_reverted))
unfolding confirm
confirm-busy d s (p, e, f) = pending_busy d s s.state.pending p e f

cancelled :
    (d : Driver) (probe : List GpuProbe) (now : ℕ) (s : System) (o : Option Pending) (p : Pending)
    → IsTaken s.state.pending
    → o ≡ some p
    → cancel_pending d probe now s o ≡ (s, none)
unfolding revert
cancelled d probe now s o p t e = rw (e, taken-none s.state p t) refl

cancel-taken :
    (d : Driver) (probe : List GpuProbe) (now : ℕ) (s : System)
    → IsTaken s.state.pending
    → cancel d probe now s ≡ (s, none)
unfolding cancel
cancel-taken d probe now s (p, e, f) = cancelled d probe now s s.state.pending p (p, e, f) e

tick_taken :
    (o : Option Pending) (p : Pending) (fault : Bool) (now : ℕ)
    → o ≡ some p
    → p.phase ≡ reverting
    → watchdog_tick o fault now ≡ none
unfolding watchdog_tick
tick_taken o p fault now e f = rw e (phase_taken p.phase f)
  where
    phase_taken :
        (phase : PendingPhase) → phase ≡ reverting → tick_phase phase p.deadline fault now ≡ none
    phase_taken phase g = rw g refl

acts_none :
    (d : Driver) (probe : List GpuProbe) (now : ℕ) (s : System) (o : Option Pending)
    (r : Option RevertReason)
    → r ≡ none
    → watchdog_acts d probe now s o r ≡ s
acts_none d probe now s none r e = refl
acts_none d probe now s (some p) r e = rw e refl

round_taken :
    (d : Driver) (probe : List GpuProbe) (fault : Bool) (now : ℕ) (s : System)
    → IsTaken s.state.pending
    → watchdog_round d probe fault now s ≡ s
unfolding watchdog_round
round_taken d probe fault now s (p, e, f) = elim (Bool-cases (retry_ready s.state.next_retry now)) [
  | inl ready ↦ rw ready (
      acts_none d probe now s s.state.pending
        (watchdog_tick s.state.pending (if s.state.fault_watch then fault else false) now)
        (tick_taken s.state.pending p (if s.state.fault_watch then fault else false) now e f))
  | inr early ↦ rw early refl
]

-- One revert at a time, and nothing between its halves keeps the change. Once a revert has begun,
-- with the driver's answer not yet taken in: a second one does not begin, a confirmation is refused
-- as busy and changes nothing, a cancel and a round of the watchdog change nothing.
pub begin_revert-Exclusive :
    (d : Driver) (probe : List GpuProbe) (fault : Bool) (now : ℕ) (s : System) (p q : Pending)
    (m : State)
    → begin_revert s.state p ≡ some m
    → (begin_revert m q ≡ none)
      × (confirm d (record s { state = m })
          ≡ (record s { state = m }, some (error busy being_reverted)))
      × (cancel d probe now (record s { state = m }) ≡ (record s { state = m }, none))
      × (watchdog_round d probe fault now (record s { state = m }) ≡ record s { state = m })
begin_revert-Exclusive d probe fault now s p q m e =
    let t = begin-IsTaken s.state m p e in
    let s' : System = record s { state = m } in
    (
      taken-none m q t,
      confirm-busy d s' t,
      cancel-taken d probe now s' t,
      round_taken d probe fault now s' t,
    )
