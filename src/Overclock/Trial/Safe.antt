-- ===== src/Overclock/Trial/Safe.antt =====
-- daemon/crates/overclock/src/lib.rs: apply, confirm, and the reverts keep a change on trial named on
-- disk.
use pyren.Base.{
  ℕ, ◌≡◌, refl, sym, ◌∙◌, Bool, false, Bool-cases, inl, inr, Option, none, some, List, map_opt,
  if◌then◌else◌, is_some_and, ◌==◌,
}
use pyren.Overclock.Trial.{
  GpuProbe, Error, Pending, PendingPhase, coherent, reverting, revert_failed, RevertReason, State,
  World, Driver, System, Result, ok, err,
}
use pyren.Overclock.Trial.Card.{persist, write_target}
use pyren.Overclock.Trial.Methods.{Request, Prepared, find_gpu, prepare, apply, apply_result}
use pyren.Overclock.Trial.Reset.{confirm, confirm_pending, confirm_phase, kept_state, with_phase}
use pyren.Overclock.Trial.Watchdog.{
  begin_revert, revert_starts, finish_revert, revert, revert_rest, revert_write, revert_taken,
  revert_refused, watchdog_round, watchdog_acts, watchdog_tick, cancel, cancel_pending, retry_ready,
}
use pyren.Overclock.Trial.Disk.{write_target-disk}
use pyren.Overclock.Trial.Armed.{
  view, gpu_of, IsSafe, persist-IsSafe, in_world, apply_prepared-IsSafe, prepare-not_pending,
}

pub gpu_of-with_phase :
    (phase : PendingPhase) (o : Option Pending)
    → gpu_of (map_opt {A = Pending} {B = Pending} (λ p. record p { phase = phase }) o) ≡ gpu_of o
gpu_of-with_phase phase none = refl
gpu_of-with_phase phase (some p) = refl

pub with_phase-IsSafe :
    (phase : PendingPhase) (s : State) (w : World)
    → IsSafe (view (record { state = s; world = w }))
    → IsSafe (view (record { state = with_phase phase s; world = w }))
with_phase-IsSafe phase s w h = rw (gpu_of-with_phase phase s.pending) h

module _ (d : Driver) (probe : List GpuProbe) where
  pub apply-IsSafe :
      (r : Request) (now : ℕ) (s : System)
      → IsSafe (view s)
      → IsSafe (view (apply d probe r now s).0)
  unfolding apply
  apply-IsSafe r now s h = go (prepare probe r s.state) refl
    where
      go :
          (o : Result Prepared)
          → prepare probe r s.state ≡ o
          → IsSafe (view (apply_result d now s o).0)
      go (err e) q = h
      go (ok p) q = apply_prepared-IsSafe d p now s (prepare-not_pending probe r s.state p q) h

  pub confirm-IsSafe : (s : System) → IsSafe (view s) → IsSafe (view (confirm d s).0)
  unfolding confirm
  confirm-IsSafe s h = go s.state.pending
    where
      phase_go : (p : Pending) (phase : PendingPhase) → IsSafe (view (confirm_phase d s p phase).0)
      phase_go p coherent = persist-IsSafe d (record s { state = kept_state p s.state }) refl
      phase_go p reverting = h
      phase_go p revert_failed = h

      go : (o : Option Pending) → IsSafe (view (confirm_pending d s o).0)
      go none = h
      go (some p) = phase_go p p.phase

  pub finish_revert-IsSafe :
      (p : Pending) (reason : RevertReason) (now : ℕ) (s : System) (o : Option Error)
      → IsSafe (view s)
      → IsSafe (view (finish_revert d p reason now s o))
  unfolding finish_revert
  finish_revert-IsSafe p reason now s o h =
      elim (Bool-cases (is_some_and s.state.pending (λ c. c.generation == p.generation))) [
        | inl same ↦ rw same (go o)
        | inr other ↦ rw other h
      ]
    where
      go :
          (o : Option Error)
          → IsSafe (
              view (
                persist d (record s {
                  state = elim o [
                    | none ↦ revert_taken p reason s.state
                    | some e ↦ revert_refused now e s.state
                  ];
                })))
      go none = persist-IsSafe d (record s { state = revert_taken p reason s.state }) refl
      go (some e) =
          persist-IsSafe d (record s { state = revert_refused now e s.state })
            (h.armed ∙ sym (gpu_of-with_phase revert_failed s.state.pending))

  pub revert-IsSafe :
      (p : Pending) (reason : RevertReason) (now : ℕ) (s : System)
      → IsSafe (view s)
      → IsSafe (view (revert d probe p reason now s).0)
  unfolding revert begin_revert
  revert-IsSafe p reason now s h = elim (Bool-cases (revert_starts s.state.pending p)) [
    | inl starts ↦ rw starts (go (find_gpu p.gpu probe))
    | inr stale ↦ rw stale h
  ]
    where
      marked : IsSafe (view (record s { state = with_phase reverting s.state }))
      marked = with_phase-IsSafe reverting s.state s.world h

      go :
          (g : Option GpuProbe)
          → IsSafe (
              view
                (revert_rest d p reason now
                  (with_phase reverting s.state)
                  (revert_write d p s.world g)).0)
      go none =
          finish_revert-IsSafe p reason now (record s { state = with_phase reverting s.state })
            (revert_write d p s.world none).1 marked
      go (some g) =
          finish_revert-IsSafe p reason now
            (record {
              state = with_phase reverting s.state;
              world = (write_target d g p.revert_to s.world).0;
            })
            (write_target d g p.revert_to s.world).1
            (in_world (with_phase reverting s.state) s.world
              (write_target d g p.revert_to s.world).0 (write_target-disk d g p.revert_to s.world)
              marked)

  pub watchdog_round-IsSafe :
      (fault : Bool) (now : ℕ) (s : System)
      → IsSafe (view s)
      → IsSafe (view (watchdog_round d probe fault now s))
  unfolding watchdog_round
  watchdog_round-IsSafe fault now s h = elim (Bool-cases (retry_ready s.state.next_retry now)) [
    | inl ready ↦ rw ready (
        go s.state.pending
          (watchdog_tick s.state.pending (if s.state.fault_watch then fault else false) now))
    | inr early ↦ rw early h
  ]
    where
      go :
          (p : Option Pending) (reason : Option RevertReason)
          → IsSafe (view (watchdog_acts d probe now s p reason))
      go none reason = h
      go (some p) none = h
      go (some p) (some reason) = revert-IsSafe p reason now s h

  pub cancel-IsSafe :
      (now : ℕ) (s : System) → IsSafe (view s) → IsSafe (view (cancel d probe now s).0)
  unfolding cancel
  cancel-IsSafe now s h = go s.state.pending
    where
      go : (p : Option Pending) → IsSafe (view (cancel_pending d probe now s p).0)
      go none = h
      go (some p) = revert-IsSafe p RevertReason.undone now s h
