-- ===== src/Fan/Tick/Requests.antt =====
-- daemon/crates/fan/src/lib.rs: `setMode` and the request of a mode, which is tried in a pass and taken
-- back if the pass does not write it.
use pyren.Base.{
  ℕ, max, true, false, not, ◌&&◌, Option, none, some, [], if◌then◌else◌, unwrap_or, map_opt, F64Ops,
}
use pyren.Fan.Mode.{FanMode, needs_pwm, supports}
use pyren.Fan.Curve.Floor.{min_commanded_pwm}
use pyren.Fan.Curve.Smoother.{new}
use pyren.Fan.Tick.{
  State, ModeRequest, TickInputs, Board, TickOutcome, applied, deferred, refused, Done,
}
use pyren.Fan.Tick.Stalls.{forget_writes}
use pyren.Fan.Tick.Pass.{tick_locked}

-- What a request is answered with: the committed speed, or why not yet.
pub data Answer : Type 0 where
  took : ℕ → Answer
  mode_deferred write_refused : Answer
  cannot_do_mode speed_ignored : Answer

unfoldable pub tentative : ModeRequest → State → State
tentative r s =
    record (forget_writes (record s {
      config = record s.config {
        manual_pwm = unwrap_or r.manual_pwm (s.config).manual_pwm;
        mode = r.mode;
      };
      mode = r.mode;
      owned = true;
      stalled = false;
    })) { smoother = new s.config.ma_window }

-- The snapshot is the state from before.
abbrev pub rolled_back : State → ModeRequest → State → State
rolled_back before r s = record s {
  config = record s.config { mode = before.config.mode; manual_pwm = (before.config).manual_pwm };
  mode = before.mode;
  owned = before.owned;
  stalled = before.stalled;
  released = before.released;
  hysteresis = before.hysteresis;
  smoother = before.smoother;
  pending_mode = some r;
}

abbrev pub committed : Board → State → State
committed b s = record s { pending_mode = none; save_failed = not b.saves }

abbrev pub finish : Board → State → ModeRequest → Done → TickOutcome → Done × Answer
finish b before r d applied =
    (record d { state = committed b d.state }, took (d.state.config).manual_pwm)
finish b before r d deferred = (record d { state = rolled_back before r d.state }, mode_deferred)
finish b before r d refused = (record d { state = rolled_back before r d.state }, write_refused)

-- `tick_with_mode_request` with a request.
unfoldable pub request_pass : F64Ops → Board → TickInputs → ModeRequest → State → Done × Answer
request_pass fl b i r s = let d = tick_locked fl b i (tentative r s) in finish b s r d d.outcome

-- `tick_once`: a request that waits is tried again.
abbrev pub pass_with :
    F64Ops → Board → TickInputs → State → Option ModeRequest → Done × Option Answer
pass_with fl b i s none = (tick_locked fl b i s, none)
pass_with fl b i s (some r) = let (d, answer) = request_pass fl b i r s in (d, some answer)

unfoldable pub tick_once : F64Ops → Board → TickInputs → State → Done × Option Answer
tick_once fl b i s = pass_with fl b i s s.pending_mode

abbrev pub unasked : State → Done
unasked s = record { state = s; wrote = []; events = []; outcome = deferred }

unfoldable pub set_mode : F64Ops → Board → TickInputs → FanMode → Option ℕ → State → Done × Answer
set_mode fl b i mode pwm s =
    let r : ModeRequest = record {
      mode = mode;
      manual_pwm = map_opt (λ value. max value min_commanded_pwm) pwm;
    } in
    if not (supports b.caps mode)
    then (unasked s, cannot_do_mode)
    else if needs_pwm mode && s.config.speed_ignored
    then (unasked s, speed_ignored)
    else request_pass fl b i r (record s { pending_mode = some r })
