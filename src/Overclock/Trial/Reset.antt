-- ===== src/Overclock/Trial/Reset.antt =====
-- daemon/crates/overclock/src/lib.rs: keeping a change, going back to stock, and what a client sets.
use pyren.Base.{
  ℕ, ◌+◌, Bool, true, false, not, ◌||◌, Option, none, some, List, [], ◌∷◌, ◌++◌, String, str_eq,
  lookup, insert, is_some_and, is_some, unwrap_or, map_opt, then_some, if◌then◌else◌, map, keep,
}
use pyren.Overclock.Plan.{Target, stock, is_stock}
use pyren.Overclock.Trial.{
  GpuProbe, drivable, busy, invalid_params, nothing_pending, being_reverted, pending_probe,
  back_to_stock_failed, no_such_gpu, Error, PendingPhase, coherent, reverting, revert_failed,
  Pending, kept, back_to_stock, nothing_to_undo, State, World, Driver, System, consent_version,
  retry_ms,
}
use pyren.Overclock.Trial.Card.{write_target, persist, kept_kind}
use pyren.Overclock.Trial.Methods.{error, find_gpu}

-- `confirm` of a change that is not being taken back.
abbrev pub kept_state : Pending → State → State
kept_state p s = record s {
  pending = none;
  fault_watch = false;
  next_retry = none;
  config = record s.config {
    targets = insert p.gpu (unwrap_or (lookup p.gpu s.applied) stock) s.config.targets;
    armed_gpu = none;
  };
  last_note = some (kept p.gpu);
}

abbrev pub confirm_phase : Driver → System → Pending → PendingPhase → System × Option Error
confirm_phase d s p coherent = (persist d (record s { state = kept_state p s.state }), none)
confirm_phase d s p _ = (s, some (error busy being_reverted))

abbrev pub confirm_pending : Driver → System → Option Pending → System × Option Error
confirm_pending d s none = (s, some (error invalid_params nothing_pending))
confirm_pending d s (some p) = confirm_phase d s p p.phase

unfoldable pub confirm : Driver → System → System × Option Error
confirm d s = confirm_pending d s s.state.pending

unfoldable pub needs_undoing : Option Target → Bool
needs_undoing applied = is_some_and applied (λ t. not (is_stock t))

abbrev pub pending_on : State → String → Bool
pending_on s id = is_some_and s.pending (λ p. str_eq p.gpu id)

abbrev pub with_phase : PendingPhase → State → State
with_phase phase s = record s {
  pending = map_opt {A = Pending} {B = Pending} (λ p. record p { phase = phase }) s.pending;
}

abbrev pub mark : String → State → State
mark id s = if pending_on s id then with_phase reverting s else s

abbrev pub reset_failed : String → ℕ → Error → State → State
reset_failed id now e s =
    if pending_on s id
    then record (with_phase revert_failed s) { next_retry = some (now + retry_ms) }
    else s

abbrev pub disarmed : State → State
disarmed s = record s {
  pending = none;
  fault_watch = false;
  next_retry = none;
  config = record s.config { armed_gpu = none };
}

abbrev pub put_to_stock : String → State → State
put_to_stock id s = record s {
  applied = insert id stock s.applied;
  config = record s.config { targets = insert id stock s.config.targets };
}

unfoldable pub reset_done : String → State → State
reset_done id s = if pending_on s id then disarmed (put_to_stock id s) else put_to_stock id s

-- What one round of the loop of `reset` comes to.
pub data Round : Type 0 where
  missing skipped wrote : Round
  write_failed : Error → Round

abbrev pub after_write : Driver → String → ℕ → State → World × Option Error → System × Round
after_write d id now s (w, some e) =
    (record { state = reset_failed id now e s; world = w }, write_failed e)
after_write d id now s (w, none) =
    (persist d (record { state = reset_done id s; world = w }), wrote)

abbrev pub reset_gpu : Driver → String → ℕ → System → Option GpuProbe → System × Round
reset_gpu d id now s none = (s, missing)
reset_gpu d id now s (some g) =
    if pending_on s.state id || needs_undoing (lookup id s.state.applied)
    then after_write d id now (mark id s.state) (write_target d g stock s.world)
    else (persist d (record s { state = reset_done id s.state }), skipped)

unfoldable pub reset_one : Driver → List GpuProbe → ℕ → String → System → System × Round
reset_one d probe now id s = reset_gpu d id now s (find_gpu id probe)

-- What follows the loop: the first failure is the answer.
abbrev pub reset_end : System → List Error → Bool → System × Option Error
reset_end s (e ∷ es) wrote_any =
    let answer : Error = record { kind = kept_kind e.kind; reason = back_to_stock_failed } in
    (record s { state = record s.state { last_error = some answer } }, some answer)
reset_end s [] wrote_any = (
  record s {
    state = record s.state {
      last_error = none;
      last_note = some (if wrote_any then back_to_stock else nothing_to_undo);
    };
  },
  none,
)

-- The loop; an id that is not on the machine ends it at once. Failures are in order.
unfoldable pub reset_ids :
    Driver → List GpuProbe → ℕ → List String → List Error → Bool → System → System × Option Error
reset_ids d probe now [] fs wrote_any s = reset_end s fs wrote_any
reset_ids d probe now (id ∷ ids) fs wrote_any s =
    let (s', round) = reset_one d probe now id s in
    elim round [
      | missing ↦ (s', some (error invalid_params (no_such_gpu id)))
      | skipped ↦ reset_ids d probe now ids fs wrote_any s'
      | wrote ↦ reset_ids d probe now ids fs true s'
      | write_failed e ↦ reset_ids d probe now ids (fs ++ (e ∷ [])) wrote_any s'
    ]

abbrev pub reset_list : List GpuProbe → Option String → List String
reset_list probe none = map (λ g. g.id) (keep drivable probe)
reset_list probe (some id) = id ∷ []

unfoldable pub reset : Driver → List GpuProbe → Option String → ℕ → System → System × Option Error
reset d probe gpu now s = reset_ids d probe now (reset_list probe gpu) [] false s

-- A consent that is withdrawn also puts the cards back.
unfoldable pub set_consent : Driver → List GpuProbe → Bool → ℕ → ℕ → System → System × Option Error
set_consent d probe accepted seconds now s =
    let consent =
      then_some accepted (record { accepted_at = seconds; version = consent_version }) in
    let s' = persist d (record s {
      state = record s.state { config = record s.state.config { consent = consent } };
    }) in
    if accepted then (s', none) else reset d probe none now s'

unfoldable pub set_restore_on_start : Driver → Bool → System → System × Option Error
set_restore_on_start d enabled s = (
  persist d (record s {
    state = record s.state { config = record s.state.config { restore_on_start = enabled } };
  }),
  none,
)

-- A probe that may write is refused while a change is on trial.
unfoldable pub refresh_probe :
    Bool → List GpuProbe → List GpuProbe → State → List GpuProbe × Option Error
refresh_probe allow_writes old fresh s =
    if allow_writes
    then (if is_some s.pending then (old, some (error busy pending_probe)) else (fresh, none))
    else (fresh, none)

abbrev pub hand_back : String → State → World × Option Error → System
hand_back id s (w, some e) = record { state = s; world = w }
hand_back id s (w, none) = record {
  state = record s { applied = insert id stock s.applied };
  world = w;
}

abbrev pub handed_one : Driver → GpuProbe → System → System
handed_one d g s =
    if drivable g
    then if pending_on s.state g.id || needs_undoing (lookup g.id s.state.applied)
      then hand_back g.id s.state (write_target d g stock s.world)
      else s
    else s

-- The loop of `on_handover`: what was moved goes to stock, and the choices stay.
unfoldable pub on_handover : Driver → List GpuProbe → System → System
on_handover d [] s = s
on_handover d (g ∷ gs) s = on_handover d gs (handed_one d g s)
