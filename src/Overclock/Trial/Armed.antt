-- ===== src/Overclock/Trial/Armed.antt =====
-- daemon/crates/overclock/src/lib.rs: while a change is on trial its card is named in the
-- configuration, in memory and on disk.
use pyren.Base.{
  ℕ, ◌≡◌, Bool, true, false, Bool-cases, sym, subst, inl, inr, Option, none, some, List, String,
  arith,
}
use pyren.Overclock.Plan.{same_target}
use pyren.Overclock.Trial.{
  GpuProbe, Error, Pending, State, World, Driver, System, OverclockConfig, ok,
}
use pyren.Overclock.Trial.Card.{persist, climb}
use pyren.Overclock.Trial.Disk.{climb-disk}
use pyren.Overclock.Trial.Methods.{Request, Prepared, prepare, apply_prepared, climbed, taken}

abbrev pub gpu_of : Option Pending → Option String
gpu_of none = none
gpu_of (some p) = some p.gpu

-- What the safety of a crash rests on.
pub record View : Type 0 where
  pub armed : Option String
  pub trial : Option String
  pub failed : Bool
  pub disk : Option OverclockConfig

abbrev pub view : System → View
view s = record {
  armed = s.state.config.armed_gpu;
  trial = gpu_of s.state.pending;
  failed = s.state.save_failed;
  disk = s.world.disk;
}

abbrev pub armed_on : Option OverclockConfig → Option String
armed_on none = none
armed_on (some c) = c.armed_gpu

-- The card of a change on trial is on disk, unless the last save failed.
abbrev pub Saved : Bool → Option String → Option OverclockConfig → Type 0
Saved true trial disk = Unit {0}
Saved false none disk = Unit {0}
Saved false (some g) disk = armed_on disk ≡ some g

pub record IsSafe (v : View) : Type 0 where
  pub armed : v.armed ≡ v.trial
  pub saved : Saved v.failed v.trial v.disk

abbrev pub IsArmed : State → Type 0
IsArmed s = s.config.armed_gpu ≡ gpu_of s.pending

Saved-config : (t : Option String) (c : OverclockConfig) → c.armed_gpu ≡ t → Saved false t (some c)
Saved-config none c e = tt
Saved-config (some g) c e = e

-- A save leaves a safe state, whether it succeeds or not.
pub persist-IsSafe : (d : Driver) (s : System) → IsArmed s.state → IsSafe (view (persist d s))
unfolding persist
persist-IsSafe d s a = elim (Bool-cases (d.saves_at s.world.saves)) [
  | inl saves ↦
      rw saves
        (record { armed = a; saved = Saved-config (gpu_of s.state.pending) s.state.config a })
  | inr fails ↦ rw fails (record { armed = a; saved = tt })
]

-- A step that changes nothing of the view but the configuration on disk not at all.
pub IsSafe-same : (a b : View) → a ≡ b → IsSafe a → IsSafe b
IsSafe-same a b e h = subst IsSafe e h

taken-IsArmed :
    (d : Driver) (p : Prepared) (now : ℕ) (s : State)
    → IsArmed s
    → s.pending ≡ none
    → IsArmed (taken d p now s)
unfolding taken
taken-IsArmed d p now s a n = ground arith

-- The view of a system whose world is replaced by one with the same disk.
pub in_world :
    (s : State) (w w' : World)
    → w'.disk ≡ w.disk
    → IsSafe (view (record { state = s; world = w }))
    → IsSafe (view (record { state = s; world = w' }))
in_world s w w' e h = record {
  armed = h.armed;
  saved = subst (λ x. Saved s.save_failed (gpu_of s.pending) x) (sym e) h.saved;
}

climbed-IsSafe :
    (d : Driver) (p : Prepared) (now : ℕ) (s : System) (w : World) (o : Option Error)
    → w.disk ≡ s.world.disk
    → s.state.pending ≡ none
    → IsSafe (view s)
    → IsSafe (view (climbed d p now s.state (w, o)).0)
climbed-IsSafe d p now s w (some e) k n h = in_world s.state s.world w k h
climbed-IsSafe d p now s w none k n h =
    persist-IsSafe d (record { state = taken d p now s.state; world = w })
      (taken-IsArmed d p now s.state h.armed n)

pub apply_prepared-IsSafe :
    (d : Driver) (p : Prepared) (now : ℕ) (s : System)
    → s.state.pending ≡ none
    → IsSafe (view s)
    → IsSafe (view (apply_prepared d p now s).0)
unfolding apply_prepared
apply_prepared-IsSafe d p now s n h = elim (Bool-cases (same_target (p.result).target p.from)) [
  | inl same ↦ rw same h
  | inr other ↦ rw other (
      climbed-IsSafe d p now s (climb d p.gpu p.from (p.result).target s.world).0
        (climb d p.gpu p.from (p.result).target s.world).1
        (climb-disk d p.gpu p.from (p.result).target s.world) n h)
]

pub prepare-not_pending :
    (probe : List GpuProbe) (r : Request) (s : State) (p : Prepared)
    → prepare probe r s ≡ ok p
    → s.pending ≡ none
unfolding prepare
prepare-not_pending probe r s p e = ground arith
