-- ===== src/Overclock/Trial/Choices.antt =====
-- daemon/crates/overclock/src/lib.rs: a saved choice, which a start restores, changes only when a
-- client confirms a change, or to stock.
use pyren.Base.{
  ℕ, ◌≡◌, ◌⊎◌, inl, inr, refl, ◌∙◌, Bool, true, false, Bool-cases, Option, none, some, List, String,
  str_eq, lookup, insert, lookup-insert, if◌then◌else◌, is_some_and, ◌==◌,
}
use pyren.Overclock.Plan.{Target, is_stock, same_target}
use pyren.Overclock.Trial.{
  GpuProbe, Error, Pending, reverting, RevertReason, undone, State, World, Driver, System, Result,
  ok, err,
}
use pyren.Overclock.Trial.Card.{persist, climb}
use pyren.Overclock.Trial.Methods.{Prepared, find_gpu, apply_prepared, apply_result, climbed, taken}
use pyren.Overclock.Trial.Reset.{with_phase}
use pyren.Overclock.Trial.Watchdog.{
  begin_revert, revert_starts, finish_revert, revert, revert_rest, revert_write, revert_taken,
  revert_refused, watchdog_round, watchdog_acts, watchdog_tick, cancel_pending, retry_ready,
}

abbrev pub choice : String → State → Option Target
choice id s = lookup id s.config.targets

-- The choice is the same, or it is stock now.
abbrev pub Keeps : Option Target → Option Target → Type 0
Keeps a b = (b ≡ a) ⊎ ((t : Target) × (b ≡ some t) × (is_stock t ≡ true))

pub Keeps-trans : {a b c : Option Target} → Keeps a b → Keeps b c → Keeps a c
Keeps-trans (inl e) (inl f) = inl (f ∙ e)
Keeps-trans (inr (t, e, s)) (inl f) = inr (t, f ∙ e, s)
Keeps-trans h (inr k) = inr k

abbrev pub KeepsIn : String → State → State → Type 0
KeepsIn id a b = Keeps (choice id a) (choice id b)

pub insert-Keeps :
    (id k : String) (t : Target) (m : List (String × Target))
    → is_stock t ≡ true
    → Keeps (lookup id m) (lookup id (insert k t m))
insert-Keeps id k t m h = elim (Bool-cases (str_eq k id)) [
  | inl same ↦ inr (t, lookup-insert k id t m ∙ rw same refl, h)
  | inr other ↦ inl (lookup-insert k id t m ∙ rw other refl)
]

pub persist-choice :
    (d : Driver) (s : System) (id : String) → choice id (persist d s).state ≡ choice id s.state
unfolding persist
persist-choice d s id = elim (Bool-cases (d.saves_at s.world.saves)) [
  | inl saves ↦ rw saves refl
  | inr fails ↦ rw fails refl
]

pub persist-Keeps :
    (d : Driver) (a : State) (s : System) (id : String)
    → KeepsIn id a s.state
    → KeepsIn id a (persist d s).state
persist-Keeps d a s id h = Keeps-trans h (inl (persist-choice d s id))

taken-Keeps :
    (d : Driver) (p : Prepared) (now : ℕ) (s : State) (id : String) → KeepsIn id s (taken d p now s)
unfolding taken
taken-Keeps d p now s id = elim (Bool-cases (is_stock (p.result).target)) [
  | inl back ↦ rw back (insert-Keeps id (p.gpu).id (p.result).target s.config.targets back)
  | inr other ↦ rw other (inl refl)
]

climbed-Keeps :
    (d : Driver) (p : Prepared) (now : ℕ) (s : State) (x : World × Option Error) (id : String)
    → KeepsIn id s (climbed d p now s x).0.state
climbed-Keeps d p now s (w, some e) id = inl refl
climbed-Keeps d p now s (w, none) id =
    persist-Keeps d s (record { state = taken d p now s; world = w }) id (taken-Keeps d p now s id)

apply_prepared-Keeps :
    (d : Driver) (p : Prepared) (now : ℕ) (s : System) (id : String)
    → KeepsIn id s.state (apply_prepared d p now s).0.state
unfolding apply_prepared
apply_prepared-Keeps d p now s id = elim (Bool-cases (same_target (p.result).target p.from)) [
  | inl same ↦ rw same (inl refl)
  | inr other ↦
      rw other (climbed-Keeps d p now s.state (climb d p.gpu p.from (p.result).target s.world) id)
]

pub apply_result-Keeps :
    (d : Driver) (now : ℕ) (s : System) (o : Result Prepared) (id : String)
    → KeepsIn id s.state (apply_result d now s o).0.state
apply_result-Keeps d now s (err e) id = inl refl
apply_result-Keeps d now s (ok p) id = apply_prepared-Keeps d p now s id

pub finish_revert-Keeps :
    (d : Driver) (p : Pending) (reason : RevertReason) (now : ℕ) (s : System) (o : Option Error)
    (id : String)
    → KeepsIn id s.state (finish_revert d p reason now s o).state
unfolding finish_revert
finish_revert-Keeps d p reason now s o id =
    elim (Bool-cases (is_some_and s.state.pending (λ c. c.generation == p.generation))) [
      | inl same ↦ rw same (go o)
      | inr other ↦ rw other (inl refl)
    ]
  where
    go :
        (o : Option Error)
        → KeepsIn id s.state
            (persist d (record s {
              state = elim o [
                | none ↦ revert_taken p reason s.state
                | some e ↦ revert_refused now e s.state
              ];
            })).state
    go none =
        persist-Keeps d s.state (record s { state = revert_taken p reason s.state }) id (inl refl)
    go (some e) =
        persist-Keeps d s.state (record s { state = revert_refused now e s.state }) id (inl refl)

revert-Keeps :
    (d : Driver) (probe : List GpuProbe) (p : Pending) (reason : RevertReason) (now : ℕ)
    (s : System) (id : String)
    → KeepsIn id s.state (revert d probe p reason now s).0.state
unfolding revert begin_revert
revert-Keeps d probe p reason now s id = elim (Bool-cases (revert_starts s.state.pending p)) [
  | inl starts ↦ rw starts (go (revert_write d p s.world (find_gpu p.gpu probe)))
  | inr stale ↦ rw stale (inl refl)
]
  where
    go :
        (x : World × Option Error)
        → KeepsIn id s.state (revert_rest d p reason now (with_phase reverting s.state) x).0.state
    go (w, e) =
        finish_revert-Keeps d p reason now
          (record { state = with_phase reverting s.state; world = w }) e id

watchdog_acts-Keeps :
    (d : Driver) (probe : List GpuProbe) (now : ℕ) (s : System) (p : Option Pending)
    (r : Option RevertReason) (id : String)
    → KeepsIn id s.state (watchdog_acts d probe now s p r).state
watchdog_acts-Keeps d probe now s none r id = inl refl
watchdog_acts-Keeps d probe now s (some p) none id = inl refl
watchdog_acts-Keeps d probe now s (some p) (some r) id = revert-Keeps d probe p r now s id

pub watchdog_round-Keeps :
    (d : Driver) (probe : List GpuProbe) (fault : Bool) (now : ℕ) (s : System) (id : String)
    → KeepsIn id s.state (watchdog_round d probe fault now s).state
unfolding watchdog_round
watchdog_round-Keeps d probe fault now s id =
    elim (Bool-cases (retry_ready s.state.next_retry now)) [
      | inl ready ↦ rw ready (
          watchdog_acts-Keeps d probe now s s.state.pending
            (watchdog_tick s.state.pending (if s.state.fault_watch then fault else false) now) id)
      | inr early ↦ rw early (inl refl)
    ]

pub cancel_pending-Keeps :
    (d : Driver) (probe : List GpuProbe) (now : ℕ) (s : System) (p : Option Pending) (id : String)
    → KeepsIn id s.state (cancel_pending d probe now s p).0.state
cancel_pending-Keeps d probe now s none id = inl refl
cancel_pending-Keeps d probe now s (some p) id = revert-Keeps d probe p undone now s id
