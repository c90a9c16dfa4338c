-- ===== src/Overclock/Trial/Watchdog.antt =====
-- daemon/crates/overclock/src/lib.rs: the watchdog, and the revert that it shares with `cancel`.
-- The hardware is written without the state's lock, so a revert is in two halves: `begin_revert`
-- marks the change, and `finish_revert` takes the driver's answer into the state.
use pyren.Base.{
  ℕ, ◌+◌, Bool, true, false, not, Option, none, some, List, insert, is_some_and, if◌then◌else◌, leb,
  ◌==◌,
}
use pyren.Overclock.Trial.{
  GpuProbe, failed, invalid_params, nothing_pending, gpu_gone, Error, PendingPhase, coherent,
  reverting, revert_failed, Pending, RevertReason, not_confirmed, undone, fault_reported, reverted,
  State, World, Driver, System, retry_ms,
}
use pyren.Overclock.Trial.Card.{write_target, persist}
use pyren.Overclock.Trial.Methods.{error, find_gpu}
use pyren.Overclock.Trial.Reset.{with_phase, disarmed}

abbrev pub tick_phase : PendingPhase → ℕ → Bool → ℕ → Option RevertReason
tick_phase reverting deadline fault now = none
tick_phase revert_failed deadline fault now = some not_confirmed
tick_phase coherent deadline fault now =
    if leb deadline now then some not_confirmed else if fault then some fault_reported else none

unfoldable pub watchdog_tick : Option Pending → Bool → ℕ → Option RevertReason
watchdog_tick none fault now = none
watchdog_tick (some p) fault now = tick_phase p.phase p.deadline fault now

-- `next_revert_retry.is_none_or(|at| now >= at)`
abbrev pub retry_ready : Option ℕ → ℕ → Bool
retry_ready none now = true
retry_ready (some at) now = leb at now

abbrev pub is_reverting : PendingPhase → Bool
is_reverting reverting = true
is_reverting coherent = false
is_reverting revert_failed = false

-- Whether the state's change is still `p`, and nobody else is taking it back.
abbrev pub revert_starts : Option Pending → Pending → Bool
revert_starts none p = false
revert_starts (some current) p =
    if current.generation == p.generation then not (is_reverting current.phase) else false

unfoldable pub begin_revert : State → Pending → Option State
begin_revert s p = if revert_starts s.pending p then some (with_phase reverting s) else none

abbrev pub revert_write : Driver → Pending → World → Option GpuProbe → World × Option Error
revert_write d p w none = (w, some (error failed (gpu_gone p.gpu)))
revert_write d p w (some g) = write_target d g p.revert_to w

abbrev pub revert_taken : Pending → RevertReason → State → State
revert_taken p reason s = record (disarmed s) {
  applied = insert p.gpu p.revert_to s.applied;
  last_note = some (reverted reason p.gpu);
}

abbrev pub revert_refused : ℕ → Error → State → State
revert_refused now e s = record (with_phase revert_failed s) {
  next_retry = some (now + retry_ms);
  last_error = some e;
}

unfoldable pub finish_revert : Driver → Pending → RevertReason → ℕ → System → Option Error → System
finish_revert d p reason now s outcome =
    if is_some_and s.state.pending (λ current. current.generation == p.generation)
    then persist d (record s {
      state = elim outcome [
        | none ↦ revert_taken p reason s.state
        | some e ↦ revert_refused now e s.state
      ];
    })
    else s

abbrev pub revert_rest :
    Driver → Pending → RevertReason → ℕ → State → World × Option Error → System × Option Error
revert_rest d p reason now s (w, e) =
    (finish_revert d p reason now (record { state = s; world = w }) e, e)

abbrev pub revert_from :
    Driver
    → List GpuProbe
    → Pending
    → RevertReason
    → ℕ
    → System
    → Option State
    → System × Option Error
revert_from d probe p reason now s none = (s, none)
revert_from d probe p reason now s (some marked) =
    revert_rest d p reason now marked (revert_write d p s.world (find_gpu p.gpu probe))

-- `revert`, when nothing comes between its halves.
unfoldable pub revert :
    Driver → List GpuProbe → Pending → RevertReason → ℕ → System → System × Option Error
revert d probe p reason now s = revert_from d probe p reason now s (begin_revert s.state p)

abbrev pub watchdog_acts :
    Driver → List GpuProbe → ℕ → System → Option Pending → Option RevertReason → System
watchdog_acts d probe now s (some p) (some reason) = (revert d probe p reason now s).0
watchdog_acts d probe now s (some p) none = s
watchdog_acts d probe now s none reason = s

-- One round of the watchdog's thread, `fault` being what the open watch says.
unfoldable pub watchdog_round : Driver → List GpuProbe → Bool → ℕ → System → System
watchdog_round d probe fault now s =
    if retry_ready s.state.next_retry now
    then watchdog_acts d probe now s s.state.pending
        (watchdog_tick s.state.pending (if s.state.fault_watch then fault else false) now)
    else s

abbrev pub cancel_pending :
    Driver → List GpuProbe → ℕ → System → Option Pending → System × Option Error
cancel_pending d probe now s none = (s, some (error invalid_params nothing_pending))
cancel_pending d probe now s (some p) = revert d probe p undone now s

unfoldable pub cancel : Driver → List GpuProbe → ℕ → System → System × Option Error
cancel d probe now s = cancel_pending d probe now s s.state.pending
