-- ===== src/Overclock/Trial/Rounds.antt =====
-- daemon/crates/overclock/src/lib.rs: one round of the watchdog, for a change that is to be taken
-- back.
use pyren.Base.{
  ℕ, suc, ◌+◌, ◌≡◌, ◌∙◌, ap, true, ◌≤◌, refl, Bool, false, Bool-cases, inl, inr, Option, none, some,
  List, ◌∷◌, is_some, not, lookup, lookup_put, map_opt, arith, if◌then◌else◌, leb, ◌==◌,
  is_some_and,
}
use pyren.Overclock.Trial.{
  nvidia, GpuProbe, ErrorKind, Error, Pending, PendingPhase, coherent, reverting, revert_failed,
  RevertReason, not_confirmed, Attempt, State, Driver, System, retry_ms,
}
use pyren.Overclock.Trial.Card.{persist, attempt, driver_error}
use pyren.Overclock.Trial.Applied.{tried, write_nvidia}
use pyren.Overclock.Trial.Methods.{find_gpu}
use pyren.Overclock.Trial.Reset.{with_phase}
use pyren.Overclock.Trial.Watchdog.{
  tick_phase, retry_ready, watchdog_tick, watchdog_acts, watchdog_round, begin_revert,
  revert_starts, revert, finish_revert, revert_taken, revert_refused,
}

abbrev pub ripe : PendingPhase → ℕ → ℕ → Bool
ripe coherent deadline at = leb deadline at
ripe revert_failed deadline at = true
ripe reverting deadline at = false

-- From `at` on, `p` is to be taken back.
pub record IsDue (at : ℕ) (p : Pending) (s : State) : Type 0 where
  pub on_trial : s.pending ≡ some p
  pub ready : retry_ready s.next_retry at ≡ true
  pub overdue : ripe p.phase p.deadline at ≡ true

tick_ripe :
    (phase : PendingPhase) (deadline at now : ℕ) (fault : Bool)
    → at ≤ now
    → ripe phase deadline at ≡ true
    → tick_phase phase deadline fault now ≡ some not_confirmed
tick_ripe coherent deadline at now fault h r = ground arith
tick_ripe revert_failed deadline at now fault h r = refl
tick_ripe reverting deadline at now fault h r = cc

ready_later :
    (o : Option ℕ) (at now : ℕ) → at ≤ now → retry_ready o at ≡ true → retry_ready o now ≡ true
ready_later none at now h r = refl
ready_later (some t) at now h r = ground arith

due_starts :
    (p : Pending) (at : ℕ) → ripe p.phase p.deadline at ≡ true → revert_starts (some p) p ≡ true
due_starts p at r = ground arith

-- What a round comes to, for a change that is due.
abbrev after : Driver → Pending → GpuProbe → ℕ → System → System
after d p g now s =
    finish_revert d p not_confirmed now
      (record {
        state = with_phase reverting s.state;
        world = attempt s.world g p.revert_to (d.write s.world.calls g p.revert_to);
      })
      (map_opt driver_error (d.write s.world.calls g p.revert_to))

due_revert :
    (d : Driver) (probe : List GpuProbe) (p : Pending) (g : GpuProbe) (now at : ℕ) (s : System)
    → s.state.pending ≡ some p
    → ripe p.phase p.deadline at ≡ true
    → find_gpu p.gpu probe ≡ some g
    → g.vendor ≡ nvidia
    → (revert d probe p not_confirmed now s).0 ≡ after d p g now s
unfolding revert begin_revert
due_revert d probe p g now at s t r f v =
    rw (t, due_starts p at r, f, write_nvidia d g p.revert_to s.world v) refl

acts_lem :
    (d : Driver) (probe : List GpuProbe) (now : ℕ) (s : System) (o : Option Pending)
    (r : Option RevertReason) (p : Pending) (reason : RevertReason)
    → o ≡ some p
    → r ≡ some reason
    → watchdog_acts d probe now s o r ≡ (revert d probe p reason now s).0
acts_lem d probe now s o r p reason e f = rw (e, f) refl

tick_due :
    (o : Option Pending) (p : Pending) (at now : ℕ) (fault : Bool)
    → o ≡ some p
    → at ≤ now
    → ripe p.phase p.deadline at ≡ true
    → watchdog_tick o fault now ≡ some not_confirmed
unfolding watchdog_tick
tick_due o p at now fault e h r = rw e (tick_ripe p.phase p.deadline at now fault h r)

due_round :
    (d : Driver) (probe : List GpuProbe) (p : Pending) (g : GpuProbe) (fault : Bool) (at now : ℕ)
    (s : System)
    → IsDue at p s.state
    → at ≤ now
    → find_gpu p.gpu probe ≡ some g
    → g.vendor ≡ nvidia
    → watchdog_round d probe fault now s ≡ after d p g now s
unfolding watchdog_round
due_round d probe p g fault at now s due h f v =
    rw (ready_later s.state.next_retry at now h due.ready) (
      acts_lem d probe now s s.state.pending
        (watchdog_tick s.state.pending (if s.state.fault_watch then fault else false) now) p
        not_confirmed due.on_trial
        (tick_due s.state.pending p at now (if s.state.fault_watch then fault else false)
          due.on_trial h due.overdue)
      ∙ due_revert d probe p g now at s due.on_trial due.overdue f v)

-- What a save leaves of a system.
pub persist-same :
    (d : Driver) (s : System)
    → ((persist d s).state.pending ≡ s.state.pending)
      × ((persist d s).state.applied ≡ s.state.applied)
      × ((persist d s).state.next_retry ≡ s.state.next_retry)
      × ((persist d s).world.calls ≡ s.world.calls)
      × ((persist d s).world.written ≡ s.world.written)
unfolding persist
persist-same d s = elim (Bool-cases (d.saves_at s.world.saves)) [
  | inl saves ↦ rw saves (refl, refl, refl, refl, refl)
  | inr fails ↦ rw fails (refl, refl, refl, refl, refl)
]

-- The change is no longer on trial, its card is remembered to have the target from before it, and the
-- last that was written is that target, to that card, and the driver took it.
abbrev pub IsUndone : Pending → GpuProbe → System → Type 0
IsUndone p g s =
    (s.state.pending ≡ none)
    × (lookup p.gpu s.state.applied ≡ some p.revert_to)
    × (earlier : List Attempt) × (s.world.written ≡ tried g p.revert_to true ∷ earlier)

finish_taken :
    (d : Driver) (p : Pending) (reason : RevertReason) (now : ℕ) (s : System) (o : Option Error)
    → o ≡ none
    → is_some_and s.state.pending (λ c. c.generation == p.generation) ≡ true
    → finish_revert d p reason now s o
      ≡ persist d (record s { state = revert_taken p reason s.state })
unfolding finish_revert
finish_taken d p reason now s o e m = rw (e, m) refl

finish_refused :
    (d : Driver) (p : Pending) (reason : RevertReason) (now : ℕ) (s : System) (o : Option Error)
    (x : Error)
    → o ≡ some x
    → is_some_and s.state.pending (λ c. c.generation == p.generation) ≡ true
    → finish_revert d p reason now s o
      ≡ persist d (record s { state = revert_refused now x s.state })
unfolding finish_revert
finish_refused d p reason now s o x e m = rw (e, m) refl

same_generation :
    (o : Option Pending) (p : Pending)
    → o ≡ some p
    → is_some_and
        (map_opt {A = Pending} {B = Pending} (λ q. record q { phase = reverting }) o)
        (λ c. c.generation == p.generation)
      ≡ true
same_generation o p e = rw e (ground arith)

module _ (d : Driver) (probe : List GpuProbe) (p : Pending) (g : GpuProbe)
    (found : find_gpu p.gpu probe ≡ some g) (driven : g.vendor ≡ nvidia) where
  pub taken_round :
      (fault : Bool) (at now : ℕ) (s : System)
      → IsDue at p s.state
      → at ≤ now
      → d.write s.world.calls g p.revert_to ≡ none
      → IsUndone p g (watchdog_round d probe fault now s)
  taken_round fault at now s due h took =
      let s1 : System = record {
        state = with_phase reverting s.state;
        world = attempt s.world g p.revert_to (d.write s.world.calls g p.revert_to);
      } in
      let s2 : System = record s1 { state = revert_taken p not_confirmed s1.state } in
      let e =
        due_round d probe p g fault at now s due h found driven
        ∙ finish_taken d p not_confirmed now s1
            (map_opt driver_error (d.write s.world.calls g p.revert_to))
            (ap (map_opt driver_error) took) (same_generation s.state.pending p due.on_trial) in
      (
        ap (λ x. x.state.pending) e ∙ (persist-same d s2).0,
        ap (λ x. lookup p.gpu x.state.applied) e
            ∙ ap (lookup p.gpu) (persist-same d s2).1
            ∙ lookup_put p.gpu p.revert_to s.state.applied,
        s.world.written,
        ap (λ x. x.world.written) e
            ∙ (persist-same d s2).4
            ∙ ap (λ o. tried g p.revert_to (not (is_some o)) ∷ s.world.written) took,
      )

  pub refused_round :
      (fault : Bool) (at now : ℕ) (s : System) (k : ErrorKind)
      → IsDue at p s.state
      → at ≤ now
      → d.write s.world.calls g p.revert_to ≡ some k
      → IsDue
          (now + retry_ms)
          (record p { phase = revert_failed })
          (watchdog_round d probe fault now s).state
        × ((watchdog_round d probe fault now s).world.calls ≡ suc s.world.calls)
        × ((watchdog_round d probe fault now s).state.next_retry ≡ some (now + retry_ms))
  refused_round fault at now s k due h refused =
      let s1 : System = record {
        state = with_phase reverting s.state;
        world = attempt s.world g p.revert_to (d.write s.world.calls g p.revert_to);
      } in
      let s2 : System = record s1 { state = revert_refused now (driver_error k) s1.state } in
      let e =
        due_round d probe p g fault at now s due h found driven
        ∙ finish_refused d p not_confirmed now s1
            (map_opt driver_error (d.write s.world.calls g p.revert_to)) (driver_error k)
            (ap (map_opt driver_error) refused) (same_generation s.state.pending p due.on_trial) in
      (
        record {
          on_trial = ap (λ x. x.state.pending) e ∙ (persist-same d s2).0 ∙ rw due.on_trial refl;
          ready =
              ap (λ x. retry_ready x.state.next_retry (now + retry_ms)) e
              ∙ ap (λ o. retry_ready o (now + retry_ms)) (persist-same d s2).2
              ∙ ground arith;
          overdue = refl;
        },
        ap (λ x. x.world.calls) e ∙ (persist-same d s2).3,
        ap (λ x. x.state.next_retry) e ∙ (persist-same d s2).2,
      )
