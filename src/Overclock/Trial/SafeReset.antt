-- ===== src/Overclock/Trial/SafeReset.antt =====
-- daemon/crates/overclock/src/lib.rs: going back to stock, a hand-over and what a client sets keep a
-- change on trial named on disk.
use pyren.Base.{
  ℕ, ◌≡◌, refl, sym, ◌∙◌, Bool, true, false, ◌||◌, Bool-cases, inl, inr, Option, none, some, List,
  [], ◌∷◌, ◌++◌, String, lookup,
}
use pyren.Overclock.Plan.{stock}
use pyren.Overclock.Trial.{
  GpuProbe, drivable, Error, invalid_params, no_such_gpu, reverting, revert_failed, State, World,
  Driver, System,
}
use pyren.Overclock.Trial.Card.{persist, write_target}
use pyren.Overclock.Trial.Methods.{error, find_gpu}
use pyren.Overclock.Trial.Reset.{
  reset, reset_ids, reset_list, reset_one, reset_gpu, after_write, reset_done, reset_failed, mark,
  missing, skipped, wrote, write_failed, set_consent, set_restore_on_start, on_handover, handed_one,
  hand_back, reset_end, pending_on, needs_undoing,
}
use pyren.Overclock.Trial.Disk.{write_target-disk}
use pyren.Overclock.Trial.Armed.{view, IsSafe, IsArmed, persist-IsSafe, in_world}
use pyren.Overclock.Trial.Safe.{gpu_of-with_phase, with_phase-IsSafe}

module _ (d : Driver) (probe : List GpuProbe) where
  reset_done-IsArmed : (id : String) (s : State) → IsArmed s → IsArmed (reset_done id s)
  unfolding reset_done
  reset_done-IsArmed id s a = elim (Bool-cases (pending_on s id)) [
    | inl on ↦ rw on refl
    | inr off ↦ rw off a
  ]

  mark-IsArmed : (id : String) (s : State) → IsArmed s → IsArmed (mark id s)
  mark-IsArmed id s a = elim (Bool-cases (pending_on s id)) [
    | inl on ↦ rw on (a ∙ sym (gpu_of-with_phase reverting s.pending))
    | inr off ↦ rw off a
  ]

  pub mark-IsSafe :
      (id : String) (s : System)
      → IsSafe (view s)
      → IsSafe (view (record s { state = mark id s.state }))
  mark-IsSafe id s h = elim (Bool-cases (pending_on s.state id)) [
    | inl on ↦ rw on (with_phase-IsSafe reverting s.state s.world h)
    | inr off ↦ rw off h
  ]

  pub reset_failed-IsSafe :
      (id : String) (now : ℕ) (e : Error) (s : State) (w : World)
      → IsSafe (view (record { state = s; world = w }))
      → IsSafe (view (record { state = reset_failed id now e s; world = w }))
  reset_failed-IsSafe id now e s w h = elim (Bool-cases (pending_on s id)) [
    | inl on ↦ rw on (with_phase-IsSafe revert_failed s w h)
    | inr off ↦ rw off h
  ]

  pub after_write-IsSafe :
      (id : String) (now : ℕ) (s : System) (w : World) (o : Option Error)
      → w.disk ≡ s.world.disk
      → IsSafe (view s)
      → IsSafe (view (after_write d id now s.state (w, o)).0)
  after_write-IsSafe id now s w (some e) k h =
      reset_failed-IsSafe id now e s.state w (in_world s.state s.world w k h)
  after_write-IsSafe id now s w none k h =
      persist-IsSafe d (record { state = reset_done id s.state; world = w })
        (reset_done-IsArmed id s.state h.armed)

  pub reset_one-IsSafe :
      (now : ℕ) (id : String) (s : System)
      → IsSafe (view s)
      → IsSafe (view (reset_one d probe now id s).0)
  unfolding reset_one
  reset_one-IsSafe now id s h = go (find_gpu id probe)
    where
      go : (g : Option GpuProbe) → IsSafe (view (reset_gpu d id now s g).0)
      go none = h
      go (some g) =
          elim (Bool-cases (pending_on s.state id || needs_undoing (lookup id s.state.applied))) [
            | inl moved ↦ rw moved (
                after_write-IsSafe id now (record s { state = mark id s.state })
                  (write_target d g stock s.world).0 (write_target d g stock s.world).1
                  (write_target-disk d g stock s.world) (mark-IsSafe id s h))
            | inr still ↦ rw still (
                persist-IsSafe d (record s { state = reset_done id s.state })
                  (reset_done-IsArmed id s.state h.armed))
          ]

  pub reset_end-IsSafe :
      (s : System) (fs : List Error) (any : Bool)
      → IsSafe (view s)
      → IsSafe (view (reset_end s fs any).0)
  reset_end-IsSafe s [] any h = h
  reset_end-IsSafe s (e ∷ es) any h = h

  pub reset_ids-IsSafe :
      (now : ℕ) (ids : List String) (fs : List Error) (any : Bool) (s : System)
      → IsSafe (view s)
      → IsSafe (view (reset_ids d probe now ids fs any s).0)
  unfolding reset_ids
  reset_ids-IsSafe now [] fs any s h = reset_end-IsSafe s fs any h
  reset_ids-IsSafe now (id ∷ ids) fs any s h =
      let s' = (reset_one d probe now id s).0 in
      let h' = reset_one-IsSafe now id s h in
      elim (reset_one d probe now id s).1
        as (λ r. IsSafe (
          view
            (elim r as (λ x. System × Option Error) [
              | missing ↦ (s', some (error invalid_params (no_such_gpu id)))
              | skipped ↦ reset_ids d probe now ids fs any s'
              | wrote ↦ reset_ids d probe now ids fs true s'
              | write_failed e ↦ reset_ids d probe now ids (fs ++ (e ∷ [])) any s'
            ]).0)) [
              | missing ↦ h'
              | skipped ↦ reset_ids-IsSafe now ids fs any s' h'
              | wrote ↦ reset_ids-IsSafe now ids fs true s' h'
              | write_failed e ↦ reset_ids-IsSafe now ids (fs ++ (e ∷ [])) any s' h'
            ]

  pub reset-IsSafe :
      (gpu : Option String) (now : ℕ) (s : System)
      → IsSafe (view s)
      → IsSafe (view (reset d probe gpu now s).0)
  unfolding reset
  reset-IsSafe gpu now s h = reset_ids-IsSafe now (reset_list probe gpu) [] false s h

  pub set_consent-IsSafe :
      (accepted : Bool) (seconds now : ℕ) (s : System)
      → IsSafe (view s)
      → IsSafe (view (set_consent d probe accepted seconds now s).0)
  unfolding set_consent
  set_consent-IsSafe true seconds now s h =
      persist-IsSafe d
        (record s {
          state = record s.state {
            config = record s.state.config {
              consent = some (record { accepted_at = seconds; version = 1 });
            };
          };
        })
        h.armed
  set_consent-IsSafe false seconds now s h =
      reset-IsSafe none now
        (persist d (record s {
          state = record s.state { config = record s.state.config { consent = none } };
        }))
        (persist-IsSafe d
          (record s {
            state = record s.state { config = record s.state.config { consent = none } };
          })
          h.armed)

  pub set_restore-IsSafe :
      (enabled : Bool) (s : System)
      → IsSafe (view s)
      → IsSafe (view (set_restore_on_start d enabled s).0)
  unfolding set_restore_on_start
  set_restore-IsSafe enabled s h =
      persist-IsSafe d
        (record s {
          state = record s.state { config = record s.state.config { restore_on_start = enabled } };
        })
        h.armed

  pub hand_back-IsSafe :
      (g : GpuProbe) (s : System) (w : World) (o : Option Error)
      → w.disk ≡ s.world.disk
      → IsSafe (view s)
      → IsSafe (view (hand_back g.id s.state (w, o)))
  hand_back-IsSafe g s w none k h = in_world s.state s.world w k h
  hand_back-IsSafe g s w (some e) k h = in_world s.state s.world w k h

pub handed_one-IsSafe :
    (d : Driver) (probe : List GpuProbe) (g : GpuProbe) (s : System)
    → IsSafe (view s)
    → IsSafe (view (handed_one d g s))
handed_one-IsSafe d probe g s h = elim (Bool-cases (drivable g)) [
  | inl driven ↦
      elim (Bool-cases (pending_on s.state g.id || needs_undoing (lookup g.id s.state.applied))) [
        | inl moved ↦
            rw (driven, moved)
              (hand_back-IsSafe d probe g s (write_target d g stock s.world).0
                (write_target d g stock s.world).1 (write_target-disk d g stock s.world) h)
        | inr still ↦ rw (driven, still) h
      ]
  | inr other ↦ rw other h
]

-- The loop of a hand-over runs over its own list.
pub on_handover-IsSafe :
    (d : Driver) (gs : List GpuProbe) (s : System)
    → IsSafe (view s)
    → IsSafe (view (on_handover d gs s))
unfolding on_handover
on_handover-IsSafe d [] s h = h
on_handover-IsSafe d (g ∷ gs) s h =
    on_handover-IsSafe d gs (handed_one d g s) (handed_one-IsSafe d gs g s h)
