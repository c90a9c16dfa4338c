-- ===== src/Fan/Tick/Settled.antt =====
-- daemon/crates/fan/src/lib.rs: what a request of a mode leaves.
use pyren.Base.{◌≡◌, ◌⊎◌, inl, inr, refl, ◌∙◌, ap, true, none, some, F64Ops, unwrap_or}
use pyren.Fan.Tick.{
  State, ModeRequest, TickInputs, Board, TickOutcome, applied, deferred, refused, Done,
}
use pyren.Fan.Tick.Stalls.{forget_writes}
use pyren.Fan.Tick.Pass.{tick_locked}
use pyren.Fan.Tick.Requests.{
  Answer, took, mode_deferred, write_refused, tentative, finish, request_pass,
}
use pyren.Fan.Tick.Kept.{kept, tick-Stays}

-- Nothing of the request is left but that it waits.
pub record IsRolledBack (before : State) (r : ModeRequest) (s : State) : Type 0 where
  pub mode : s.mode ≡ before.mode
  pub config_mode : s.config.mode ≡ before.config.mode
  pub manual_pwm : (s.config).manual_pwm ≡ (before.config).manual_pwm
  pub owned : s.owned ≡ before.owned
  pub stalled : s.stalled ≡ before.stalled
  pub released : s.released ≡ before.released
  pub hysteresis : s.hysteresis ≡ before.hysteresis
  pub smoother : s.smoother ≡ before.smoother
  pub waits : s.pending_mode ≡ some r

abbrev pub Settles : State → ModeRequest → Done × Answer → Type 0
Settles before r x =
    ((x.1 ≡ took (unwrap_or r.manual_pwm (before.config).manual_pwm))
      × (x.0.outcome ≡ applied)
      × (kept x.0.state ≡ (r.mode, r.mode, unwrap_or r.manual_pwm (before.config).manual_pwm, true))
      × (x.0.state.pending_mode ≡ none))
    ⊎ ((((x.1 ≡ mode_deferred) × (x.0.outcome ≡ deferred))
          ⊎ ((x.1 ≡ write_refused) × (x.0.outcome ≡ refused)))
        × IsRolledBack before r x.0.state)

finish-Settles :
    (b : Board) (before : State) (r : ModeRequest) (d : Done) (o : TickOutcome)
    → d.outcome ≡ o
    → kept d.state ≡ (r.mode, r.mode, unwrap_or r.manual_pwm (before.config).manual_pwm, true)
    → Settles before r (finish b before r d o)
finish-Settles b before r d applied e m = inl (ap (λ k. took k.2) m, e, m, refl)
finish-Settles b before r d deferred e m = inr (
  inl (refl, e),
  record {
    mode = refl;
    config_mode = refl;
    manual_pwm = refl;
    owned = refl;
    stalled = refl;
    released = refl;
    hysteresis = refl;
    smoother = refl;
    waits = refl;
  },
)
finish-Settles b before r d refused e m = inr (
  inr (refl, e),
  record {
    mode = refl;
    config_mode = refl;
    manual_pwm = refl;
    owned = refl;
    stalled = refl;
    released = refl;
    hysteresis = refl;
    smoother = refl;
    waits = refl;
  },
)

kept-tentative :
    (r : ModeRequest) (s : State)
    → kept (tentative r s) ≡ (r.mode, r.mode, unwrap_or r.manual_pwm (s.config).manual_pwm, true)
unfolding tentative forget_writes
kept-tentative r s = refl

-- A request of a mode is taken whole or waits. Whatever the readings, the guards and the driver do in
-- the pass that tries it: either the pass has applied it, the mode and the stored mode are the
-- requested one, the stored speed is the requested one, or the one from before if none was asked for,
-- and is the answer, the fans are Pyren's, and nothing waits; or the pass was deferred or its write
-- refused, the answer says which, the mode, the stored mode and speed, the ownership, the flags of a
-- stall and of released fans, the hysteresis and the smoother are those from before, and the request
-- waits to be tried again.
pub request_pass-Settles :
    (fl : F64Ops) (b : Board) (i : TickInputs) (r : ModeRequest) (s : State)
    → Settles s r (request_pass fl b i r s)
unfolding request_pass
request_pass-Settles fl b i r s =
    let d = tick_locked fl b i (tentative r s) in
    finish-Settles b s r d d.outcome refl (tick-Stays fl b i (tentative r s) ∙ kept-tentative r s)
