-- ===== src/Overclock/Trial/Chosen.antt =====
-- daemon/crates/overclock/src/lib.rs: going back to stock and the other calls keep the saved choices,
-- so only a confirmation makes a new one.
use pyren.Base.{
  ℕ, ◌≡◌, ◌⊎◌, inl, inr, refl, ◌∙◌, ap, Bool, true, false, ◌||◌, Bool-cases, Option, none, some,
  List, [], ◌∷◌, ◌++◌, String, str_eq, str_eq-eq, lookup, lookup-insert, unwrap_or,
}
use pyren.Overclock.Plan.{Target, stock, is_stock}
use pyren.Overclock.Trial.{
  GpuProbe, drivable, Error, invalid_params, no_such_gpu, Pending, PendingPhase, coherent,
  reverting, revert_failed, State, World, Driver, System,
}
use pyren.Overclock.Trial.Card.{persist, write_target}
use pyren.Overclock.Trial.Methods.{error, find_gpu, prepare, apply}
use pyren.Overclock.Trial.Reset.{
  confirm, confirm_pending, confirm_phase, kept_state, reset, reset_ids, reset_list, reset_one,
  reset_gpu, after_write, reset_done, reset_failed, mark, missing, skipped, wrote, write_failed,
  set_consent, set_restore_on_start, on_handover, handed_one, hand_back, reset_end, pending_on,
  needs_undoing,
}
use pyren.Overclock.Trial.Watchdog.{begin_revert, revert_starts, cancel}
use pyren.Overclock.Trial.Crash.{
  Event, applies, confirms, hands_over, cancels, resets, consents, restores, probes, watches,
  begins, finishes, Daemon, does, marked_in,
}
use pyren.Overclock.Trial.Choices.{
  choice, Keeps, KeepsIn, Keeps-trans, insert-Keeps, persist-choice, persist-Keeps,
  apply_result-Keeps, finish_revert-Keeps, watchdog_round-Keeps, cancel_pending-Keeps,
}

reset_done-Keeps : (k : String) (s : State) (id : String) → KeepsIn id s (reset_done k s)
unfolding reset_done is_stock
reset_done-Keeps k s id = elim (Bool-cases (pending_on s k)) [
  | inl on ↦ rw on (insert-Keeps id k stock s.config.targets refl)
  | inr off ↦ rw off (insert-Keeps id k stock s.config.targets refl)
]

mark-Keeps : (k : String) (s : State) (id : String) → KeepsIn id s (mark k s)
mark-Keeps k s id = elim (Bool-cases (pending_on s k)) [
  | inl on ↦ rw on (inl refl)
  | inr off ↦ rw off (inl refl)
]

reset_failed-Keeps :
    (k : String) (now : ℕ) (e : Error) (s : State) (id : String)
    → KeepsIn id s (reset_failed k now e s)
reset_failed-Keeps k now e s id = elim (Bool-cases (pending_on s k)) [
  | inl on ↦ rw on (inl refl)
  | inr off ↦ rw off (inl refl)
]

after_write-Keeps :
    (d : Driver) (k : String) (now : ℕ) (s : State) (x : World × Option Error) (id : String)
    → KeepsIn id s (after_write d k now s x).0.state
after_write-Keeps d k now s (w, some e) id = reset_failed-Keeps k now e s id
after_write-Keeps d k now s (w, none) id =
    persist-Keeps d s (record { state = reset_done k s; world = w }) id (reset_done-Keeps k s id)

reset_gpu-Keeps :
    (d : Driver) (k : String) (now : ℕ) (s : System) (g : Option GpuProbe) (id : String)
    → KeepsIn id s.state (reset_gpu d k now s g).0.state
reset_gpu-Keeps d k now s none id = inl refl
reset_gpu-Keeps d k now s (some g) id =
    elim (Bool-cases (pending_on s.state k || needs_undoing (lookup k s.state.applied))) [
      | inl moved ↦ rw moved (
          Keeps-trans (mark-Keeps k s.state id)
            (after_write-Keeps d k now (mark k s.state) (write_target d g stock s.world) id))
      | inr still ↦ rw still (
          persist-Keeps d s.state (record s { state = reset_done k s.state }) id
            (reset_done-Keeps k s.state id))
    ]

reset_end-Keeps :
    (s : System) (fs : List Error) (any : Bool) (id : String)
    → KeepsIn id s.state (reset_end s fs any).0.state
reset_end-Keeps s [] any id = inl refl
reset_end-Keeps s (e ∷ es) any id = inl refl

module _ (d : Driver) (probe : List GpuProbe) (now : ℕ) (id : String) where
  reset_one-Keeps :
      (k : String) (s : System) → KeepsIn id s.state (reset_one d probe now k s).0.state
  unfolding reset_one
  reset_one-Keeps k s = reset_gpu-Keeps d k now s (find_gpu k probe) id

  reset_ids-Keeps :
      (ids : List String) (fs : List Error) (any : Bool) (s : System)
      → KeepsIn id s.state (reset_ids d probe now ids fs any s).0.state
  unfolding reset_ids
  reset_ids-Keeps [] fs any s = reset_end-Keeps s fs any id
  reset_ids-Keeps (k ∷ ids) fs any s =
      let s' = (reset_one d probe now k s).0 in
      let h = reset_one-Keeps k s in
      elim (reset_one d probe now k s).1
        as (λ r.
          KeepsIn id s.state
            (elim r as (λ x. System × Option Error) [
              | missing ↦ (s', some (error invalid_params (no_such_gpu k)))
              | skipped ↦ reset_ids d probe now ids fs any s'
              | wrote ↦ reset_ids d probe now ids fs true s'
              | write_failed e ↦ reset_ids d probe now ids (fs ++ (e ∷ [])) any s'
            ]).0.state) [
              | missing ↦ h
              | skipped ↦ Keeps-trans h (reset_ids-Keeps ids fs any s')
              | wrote ↦ Keeps-trans h (reset_ids-Keeps ids fs true s')
              | write_failed e ↦ Keeps-trans h (reset_ids-Keeps ids (fs ++ (e ∷ [])) any s')
            ]

  reset-Keeps :
      (gpu : Option String) (s : System) → KeepsIn id s.state (reset d probe gpu now s).0.state
  unfolding reset
  reset-Keeps gpu s = reset_ids-Keeps (reset_list probe gpu) [] false s

  set_consent-Keeps :
      (accepted : Bool) (seconds : ℕ) (s : System)
      → KeepsIn id s.state (set_consent d probe accepted seconds now s).0.state
  unfolding set_consent
  set_consent-Keeps true seconds s =
      persist-Keeps d s.state
        (record s {
          state = record s.state {
            config = record s.state.config {
              consent = some (record { accepted_at = seconds; version = 1 });
            };
          };
        })
        id (inl refl)
  set_consent-Keeps false seconds s =
      Keeps-trans
        (persist-Keeps d s.state
          (record s {
            state = record s.state { config = record s.state.config { consent = none } };
          })
          id (inl refl))
        (reset-Keeps none (
          persist d (record s {
            state = record s.state { config = record s.state.config { consent = none } };
          })))

hand_back-Keeps :
    (k : String) (s : State) (x : World × Option Error) (id : String)
    → KeepsIn id s (hand_back k s x).state
hand_back-Keeps k s (w, some e) id = inl refl
hand_back-Keeps k s (w, none) id = inl refl

handed_one-Keeps :
    (d : Driver) (g : GpuProbe) (s : System) (id : String)
    → KeepsIn id s.state (handed_one d g s).state
handed_one-Keeps d g s id = elim (Bool-cases (drivable g)) [
  | inl driven ↦
      elim (Bool-cases (pending_on s.state g.id || needs_undoing (lookup g.id s.state.applied))) [
        | inl moved ↦
            rw (driven, moved) (hand_back-Keeps g.id s.state (write_target d g stock s.world) id)
        | inr still ↦ rw (driven, still) (inl refl)
      ]
  | inr other ↦ rw other (inl refl)
]

on_handover-Keeps :
    (d : Driver) (gs : List GpuProbe) (s : System) (id : String)
    → KeepsIn id s.state (on_handover d gs s).state
unfolding on_handover
on_handover-Keeps d [] s id = inl refl
on_handover-Keeps d (g ∷ gs) s id =
    Keeps-trans (handed_one-Keeps d g s id) (on_handover-Keeps d gs (handed_one d g s) id)

begins-Keeps :
    (s : System) (p : Pending) (id : String)
    → KeepsIn id s.state (marked_in s (begin_revert s.state p)).state
unfolding begin_revert
begins-Keeps s p id = elim (Bool-cases (revert_starts s.state.pending p)) [
  | inl starts ↦ rw starts (inl refl)
  | inr stale ↦ rw stale (inl refl)
]

-- The choice became what the confirmed change on this card had applied.
abbrev pub Confirmed : String → Event → State → Option Target → Type 0
Confirmed id e s after =
    (e ≡ confirms)
    × ((p : Pending) × (s.pending ≡ some p)
        × (p.phase ≡ coherent)
        × (p.gpu ≡ id)
        × (after ≡ some (unwrap_or (lookup id s.applied) stock)))

kept_choice :
    (d : Driver) (s : System) (p : Pending) (phase : PendingPhase) (id : String)
    → s.state.pending ≡ some p
    → p.phase ≡ phase
    → Keeps (choice id s.state) (choice id (confirm_phase d s p phase).0.state)
      ⊎ Confirmed id confirms s.state (choice id (confirm_phase d s p phase).0.state)
kept_choice d s p coherent id e f = elim (Bool-cases (str_eq p.gpu id)) [
  | inl same ↦ inr (
    refl,
    (
      p,
      e,
      f,
      str_eq-eq p.gpu id same,
      persist-choice d (record s { state = kept_state p s.state }) id
          ∙ lookup-insert p.gpu id (unwrap_or (lookup p.gpu s.state.applied) stock)
              s.state.config.targets
          ∙ rw same (
              ap (λ k. some (unwrap_or (lookup k s.state.applied) stock))
                (str_eq-eq p.gpu id same)),
    ),
  )
  | inr other ↦ inl (
      persist-Keeps d s.state (record s { state = kept_state p s.state }) id
        (inl (
          lookup-insert p.gpu id (unwrap_or (lookup p.gpu s.state.applied) stock)
            s.state.config.targets
          ∙ rw other refl)))
]
kept_choice d s p reverting id e f = inl (inl refl)
kept_choice d s p revert_failed id e f = inl (inl refl)

kept_pending :
    (d : Driver) (s : System) (o : Option Pending) (id : String)
    → s.state.pending ≡ o
    → Keeps (choice id s.state) (choice id (confirm_pending d s o).0.state)
      ⊎ Confirmed id confirms s.state (choice id (confirm_pending d s o).0.state)
kept_pending d s none id e = inl (inl refl)
kept_pending d s (some p) id e = kept_choice d s p p.phase id e refl

confirm-Confirmed :
    (d : Driver) (s : System) (id : String)
    → Keeps (choice id s.state) (choice id (confirm d s).0.state)
      ⊎ Confirmed id confirms s.state (choice id (confirm d s).0.state)
unfolding confirm
confirm-Confirmed d s id = kept_pending d s s.state.pending id refl

-- Nothing becomes a saved choice, which a start restores, unless somebody confirmed it. Whatever
-- happens to the module, the saved choice of a card stays as it was, or becomes a stock one, or the
-- event is a confirmation of a change on trial on that card that nobody is taking back, and the
-- choice becomes what was applied to it.
pub does-Confirmed :
    (d : Driver) (m : Daemon) (e : Event) (id : String)
    → Keeps (choice id m.system.state) (choice id (does d m e).state)
      ⊎ Confirmed id e m.system.state (choice id (does d m e).state)
unfolding apply cancel set_restore_on_start
does-Confirmed d m (applies r now) id =
    inl (apply_result-Keeps d now m.system (prepare m.probe r m.system.state) id)
does-Confirmed d m confirms id = confirm-Confirmed d m.system id
does-Confirmed d m hands_over id = inl (on_handover-Keeps d m.probe m.system id)
does-Confirmed d m (cancels now) id =
    inl (cancel_pending-Keeps d m.probe now m.system m.system.state.pending id)
does-Confirmed d m (resets gpu now) id = inl (reset-Keeps d m.probe now id gpu m.system)
does-Confirmed d m (consents accepted seconds now) id =
    inl (set_consent-Keeps d m.probe now id accepted seconds m.system)
does-Confirmed d m (restores enabled) id = inl (
    persist-Keeps d m.system.state
      (record m.system {
        state = record m.system.state {
          config = record m.system.state.config { restore_on_start = enabled };
        };
      })
      id (inl refl))
does-Confirmed d m (probes allow fresh) id = inl (inl refl)
does-Confirmed d m (watches fault now) id =
    inl (watchdog_round-Keeps d m.probe fault now m.system id)
does-Confirmed d m (begins p) id = inl (begins-Keeps m.system p id)
does-Confirmed d m (finishes p reason now o) id =
    inl (finish_revert-Keeps d p reason now m.system o id)
