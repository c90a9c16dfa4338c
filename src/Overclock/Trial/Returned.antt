-- ===== src/Overclock/Trial/Returned.antt =====
-- daemon/crates/overclock/src/lib.rs: a reset of a card that answers without an error.
use pyren.Base.{
  ℕ, ◌≡◌, ◌∙◌, ◌⊎◌, refl, Bool, true, false, ◌||◌, Bool-cases, inl, inr, Option, none, some, List,
  [], ◌∷◌, String, lookup, lookup_put, arith,
}
use pyren.Overclock.Plan.{Target, stock, is_stock}
use pyren.Overclock.Trial.{
  Vendor, nvidia, amd, intel, unknown, GpuProbe, Error, ErrorKind, invalid_params, no_such_gpu,
  Attempt, State, World, Driver, System,
}
use pyren.Overclock.Trial.Card.{persist, write_target, write_at}
use pyren.Overclock.Trial.Applied.{tried}
use pyren.Overclock.Trial.Methods.{error, find_gpu}
use pyren.Overclock.Trial.Reset.{
  reset, reset_ids, reset_one, reset_gpu, after_write, reset_done, mark, Round, missing, skipped,
  wrote, write_failed, pending_on, needs_undoing, reset_end,
}
use pyren.Overclock.Trial.Rounds.{persist-same}
use pyren.Overclock.Trial.Choices.{choice}

-- The card is not on trial, and has stock applied and chosen.
abbrev pub IsBack : String → State → Type 0
IsBack id s =
    (pending_on s id ≡ false) × (lookup id s.applied ≡ some stock) × (choice id s ≡ some stock)

-- The card is on trial, or has been set to something.
abbrev pub IsMoved : String → State → Type 0
IsMoved id s =
    (pending_on s id ≡ true)
    ⊎ ((t : Target) × (lookup id s.applied ≡ some t) × (is_stock t ≡ false))

abbrev pub IsUnmoved : String → State → Type 0
IsUnmoved id s =
    (pending_on s id ≡ false) × ((t : Target) → lookup id s.applied ≡ some t → is_stock t ≡ true)

-- The newest attempt is one to write stock, which the driver of the card took.
abbrev pub Wrote : GpuProbe → List Attempt → List Attempt → Type 0
Wrote g before after = (g.vendor ≡ nvidia) × (after ≡ tried g stock true ∷ before)

-- A card that was moved was written to stock, and to one that was not nothing was written.
abbrev pub PutBack : GpuProbe → String → System → System → Type 0
PutBack g id s s' =
    (IsMoved id s.state × Wrote g s.world.written s'.world.written)
    ⊎ (IsUnmoved id s.state × (s'.world.written ≡ s.world.written))

is_moved :
    (id : String) (s : State) (o : Option Target) (on : Bool)
    → lookup id s.applied ≡ o
    → pending_on s id ≡ on
    → (on || needs_undoing o) ≡ true
    → IsMoved id s
unfolding needs_undoing
is_moved id s o true f e h = inl e
is_moved id s none false f e h = cc
is_moved id s (some t) false f e h = inr (t, f, ground arith)

is_unmoved :
    (id : String) (s : State) (o : Option Target) (on : Bool)
    → lookup id s.applied ≡ o
    → pending_on s id ≡ on
    → (on || needs_undoing o) ≡ false
    → IsUnmoved id s
unfolding needs_undoing
is_unmoved id s o true f e h = cc
is_unmoved id s none false f e h = (e, λ t q. cc)
is_unmoved id s (some t) false f e h = (e, λ t' q. ground arith)

write-Wrote :
    (d : Driver) (g : GpuProbe) (w : World)
    → (write_target d g stock w).1 ≡ none
    → Wrote g w.written (write_target d g stock w).0.written
unfolding write_target write_at
write-Wrote d g w = go g.vendor (d.write w.calls g stock) refl
  where
    go :
        (v : Vendor) (o : Option ErrorKind)
        → d.write w.calls g stock ≡ o
        → (write_at d v g stock w).1 ≡ none
        → (v ≡ nvidia) × ((write_at d v g stock w).0.written ≡ tried g stock true ∷ w.written)
    go nvidia none e h = (refl, rw e refl)
    go nvidia (some k) e h = cc
    go amd o e h = cc
    go intel o e h = cc
    go unknown o e h = cc

reset_done-IsBack : (id : String) (s : State) → IsBack id (reset_done id s)
unfolding reset_done
reset_done-IsBack id s = elim (Bool-cases (pending_on s id)) [
  | inl on ↦ rw on (refl, lookup_put id stock s.applied, lookup_put id stock s.config.targets)
  | inr off ↦ rw off (off, lookup_put id stock s.applied, lookup_put id stock s.config.targets)
]

persist-IsBack :
    (d : Driver) (s : System) (id : String) → IsBack id s.state → IsBack id (persist d s).state
unfolding persist
persist-IsBack d s id b = elim (Bool-cases (d.saves_at s.world.saves)) [
  | inl saves ↦ rw saves b
  | inr fails ↦ rw fails b
]

-- What a reset of the card that the probe lists leaves.
abbrev pub Returns : List GpuProbe → String → System → System → Type 0
Returns probe id s s' =
    (g : GpuProbe) × (find_gpu id probe ≡ some g) × IsBack id s'.state × PutBack g id s s'

abbrev Settles : Type 0 → Round → Type 0
Settles R wrote = R
Settles R skipped = R
Settles R _ = Unit {0}

after_write-Settles :
    (d : Driver) (probe : List GpuProbe) (id : String) (now : ℕ) (g : GpuProbe) (s : System)
    (m : State) (x : World × Option Error)
    → find_gpu id probe ≡ some g
    → IsMoved id s.state
    → (x.1 ≡ none → Wrote g s.world.written x.0.written)
    → Settles (Returns probe id s (after_write d id now m x).0) (after_write d id now m x).1
after_write-Settles d probe id now g s m (w, some e) f moved k = tt
after_write-Settles d probe id now g s m (w, none) f moved k =
    let done : System = record { state = reset_done id m; world = w } in
    (
      g,
      f,
      persist-IsBack d done id (reset_done-IsBack id m),
      inl (moved, ((k refl).0, (persist-same d done).4 ∙ (k refl).1)),
    )

skipped-Settles :
    (d : Driver) (probe : List GpuProbe) (id : String) (g : GpuProbe) (s : System)
    → find_gpu id probe ≡ some g
    → IsUnmoved id s.state
    → Returns probe id s (persist d (record s { state = reset_done id s.state }))
skipped-Settles d probe id g s f unmoved =
    let done : System = record s { state = reset_done id s.state } in
    (
      g,
      f,
      persist-IsBack d done id (reset_done-IsBack id s.state),
      inr (unmoved, (persist-same d done).4),
    )

reset_gpu-Settles :
    (d : Driver) (probe : List GpuProbe) (id : String) (now : ℕ) (s : System) (o : Option GpuProbe)
    → find_gpu id probe ≡ o
    → Settles (Returns probe id s (reset_gpu d id now s o).0) (reset_gpu d id now s o).1
reset_gpu-Settles d probe id now s none f = tt
reset_gpu-Settles d probe id now s (some g) f =
    elim (Bool-cases (pending_on s.state id || needs_undoing (lookup id s.state.applied))) [
      | inl moved ↦ rw moved (
          after_write-Settles d probe id now g s (mark id s.state) (write_target d g stock s.world)
            f
            (is_moved id s.state (lookup id s.state.applied) (pending_on s.state id) refl refl
              moved)
            (write-Wrote d g s.world))
      | inr still ↦ rw still (
          skipped-Settles d probe id g s f (
            is_unmoved id s.state (lookup id s.state.applied) (pending_on s.state id) refl refl
              still))
    ]

-- A reset of one card that answers without an error, whatever was applied or on trial before. The
-- card is one of the machine; it is not on trial, and its applied target and its saved choice are
-- stock. If it was on trial or had a target other than stock applied, the reset wrote stock to the
-- card, once, and the driver took it; otherwise the reset wrote nothing.
pub reset-IsBack :
    (d : Driver) (probe : List GpuProbe) (id : String) (now : ℕ) (s : System)
    → (reset d probe (some id) now s).1 ≡ none
    → Returns probe id s (reset d probe (some id) now s).0
unfolding reset reset_ids reset_one
reset-IsBack d probe id now s =
    go (reset_gpu d id now s (find_gpu id probe)).1
      (reset_gpu-Settles d probe id now s (find_gpu id probe) refl)
  where
    s' : System
    s' = (reset_gpu d id now s (find_gpu id probe)).0

    done : Round → System × Option Error
    done r = elim r as (λ x. System × Option Error) [
      | missing ↦ (s', some (error invalid_params (no_such_gpu id)))
      | skipped ↦ reset_end s' [] false
      | wrote ↦ reset_end s' [] true
      | write_failed e ↦ reset_end s' (e ∷ []) false
    ]

    go :
        (r : Round)
        → Settles (Returns probe id s s') r
        → (done r).1 ≡ none
        → Returns probe id s (done r).0
    go missing h e = cc
    go skipped h e = h
    go wrote h e = h
    go (write_failed x) h e = cc
