-- ===== src/Overclock/Trial/Crash.antt =====
-- daemon/crates/overclock/src/lib.rs: a run of the module, and what the start after it restores.
use pyren.Base.{
  ℕ, ◌≡◌, refl, ◌∙◌, ap, Bool, true, false, not, ◌||◌, Bool-cases, inl, inr, Option, none, some,
  List, [], ◌∷◌, String, is_some, all, arith, if◌then◌else◌,
}
use pyren.Overclock.Plan.{Target, stock, is_stock}
use pyren.Overclock.Trial.{
  GpuProbe, Error, Pending, reverting, RevertReason, OverclockConfig, State, World, Driver, System,
}
use pyren.Overclock.Trial.Card.{climb}
use pyren.Overclock.Trial.Methods.{Request, find_gpu, has_consent, apply}
use pyren.Overclock.Trial.Reset.{
  confirm, reset, set_consent, set_restore_on_start, on_handover, refresh_probe,
}
use pyren.Overclock.Trial.Watchdog.{
  begin_revert, revert_starts, finish_revert, watchdog_round, cancel,
}
use pyren.Overclock.Trial.Start.{
  started, restored, restore_found, restore_one, restore_all, restore_on_start, start,
}
use pyren.Overclock.Trial.Armed.{View, view, gpu_of, IsSafe}
use pyren.Overclock.Trial.Safe
use pyren.Overclock.Trial.SafeReset

-- What happens to the module, one at a time. The halves of a revert are events of their own, so
-- that anything may come between them; `finishes` takes whatever the driver answered.
pub data Event : Type 0 where
  applies : Request → ℕ → Event
  confirms hands_over : Event
  cancels : ℕ → Event
  resets : Option String → ℕ → Event
  consents : Bool → ℕ → ℕ → Event
  restores : Bool → Event
  probes : Bool → List GpuProbe → Event
  watches : Bool → ℕ → Event
  begins : Pending → Event
  finishes : Pending → RevertReason → ℕ → Option Error → Event

pub record Daemon : Type 0 where
  pub system : System
  pub probe : List GpuProbe

abbrev pub marked_in : System → Option State → System
marked_in s none = s
marked_in s (some state) = record s { state = state }

abbrev pub does : Driver → Daemon → Event → System
does d m (applies r now) = (apply d m.probe r now m.system).0
does d m confirms = (confirm d m.system).0
does d m hands_over = on_handover d m.probe m.system
does d m (cancels now) = (cancel d m.probe now m.system).0
does d m (resets gpu now) = (reset d m.probe gpu now m.system).0
does d m (consents accepted seconds now) = (set_consent d m.probe accepted seconds now m.system).0
does d m (restores enabled) = (set_restore_on_start d enabled m.system).0
does d m (probes allow fresh) = m.system
does d m (watches fault now) = watchdog_round d m.probe fault now m.system
does d m (begins p) = marked_in m.system (begin_revert m.system.state p)
does d m (finishes p reason now o) = finish_revert d p reason now m.system o

abbrev pub probe_after : Daemon → Event → List GpuProbe
probe_after m (probes allow fresh) = (refresh_probe allow m.probe fresh m.system.state).0
probe_after m _ = m.probe

abbrev pub step : Driver → Daemon → Event → Daemon
step d m e = record { system = does d m e; probe = probe_after m e }

abbrev pub runs : Driver → Daemon → List Event → Daemon
runs d m [] = m
runs d m (e ∷ es) = runs d (step d m e) es

begins-IsSafe :
    (s : System) (p : Pending)
    → IsSafe (view s)
    → IsSafe (view (marked_in s (begin_revert s.state p)))
unfolding begin_revert
begins-IsSafe s p h = elim (Bool-cases (revert_starts s.state.pending p)) [
  | inl starts ↦ rw starts (Safe.with_phase-IsSafe reverting s.state s.world h)
  | inr stale ↦ rw stale h
]

pub does-IsSafe :
    (d : Driver) (m : Daemon) (e : Event) → IsSafe (view m.system) → IsSafe (view (does d m e))
does-IsSafe d m (applies r now) h = Safe.apply-IsSafe d m.probe r now m.system h
does-IsSafe d m confirms h = Safe.confirm-IsSafe d m.probe m.system h
does-IsSafe d m hands_over h = SafeReset.on_handover-IsSafe d m.probe m.system h
does-IsSafe d m (cancels now) h = Safe.cancel-IsSafe d m.probe now m.system h
does-IsSafe d m (resets gpu now) h = SafeReset.reset-IsSafe d m.probe gpu now m.system h
does-IsSafe d m (consents accepted seconds now) h =
    SafeReset.set_consent-IsSafe d m.probe accepted seconds now m.system h
does-IsSafe d m (restores enabled) h = SafeReset.set_restore-IsSafe d m.probe enabled m.system h
does-IsSafe d m (probes allow fresh) h = h
does-IsSafe d m (watches fault now) h = Safe.watchdog_round-IsSafe d m.probe fault now m.system h
does-IsSafe d m (begins p) h = begins-IsSafe m.system p h
does-IsSafe d m (finishes p reason now o) h =
    Safe.finish_revert-IsSafe d m.probe p reason now m.system o h

runs-IsSafe :
    (d : Driver) (m : Daemon) (es : List Event)
    → IsSafe (view m.system)
    → IsSafe (view (runs d m es).system)
runs-IsSafe d m [] h = h
runs-IsSafe d m (e ∷ es) h = runs-IsSafe d (step d m e) es (does-IsSafe d m e h)

-- Nothing is on trial, armed or unsaved.
record IsQuiet (s : State) : Type 0 where
  no_trial : s.pending ≡ none
  unarmed : s.config.armed_gpu ≡ none
  no_failure : s.save_failed ≡ false

IsQuiet-IsSafe : (s : System) → IsQuiet s.state → IsSafe (view s)
IsQuiet-IsSafe s q = record { armed = ground arith; saved = rw (q.no_failure, q.no_trial) tt }

restore_found-IsQuiet :
    (d : Driver) (id : String) (t : Target) (s : System) (g : Option GpuProbe)
    → IsQuiet s.state
    → IsQuiet (restore_found d id t s g).state
restore_found-IsQuiet d id t s none q = q
restore_found-IsQuiet d id t s (some g) q = go (climb d g stock t s.world).1
  where
    go :
        (o : Option Error)
        → IsQuiet (restored id t s.state ((climb d g stock t s.world).0, o)).state
    go none = record { no_trial = q.no_trial; unarmed = q.unarmed; no_failure = q.no_failure }
    go (some e) = record { no_trial = q.no_trial; unarmed = q.unarmed; no_failure = q.no_failure }

restore_one-IsQuiet :
    (d : Driver) (probe : List GpuProbe) (id : String) (t : Target) (s : System)
    → IsQuiet s.state
    → IsQuiet (restore_one d probe id t s).state
restore_one-IsQuiet d probe id t s q = elim (Bool-cases (is_stock t)) [
  | inl none_wanted ↦ rw none_wanted q
  | inr wanted ↦ rw wanted (restore_found-IsQuiet d id t s (find_gpu id probe) q)
]

restore_all-IsQuiet :
    (d : Driver) (probe : List GpuProbe) (ts : List (String × Target)) (s : System)
    → IsQuiet s.state
    → IsQuiet (restore_all d probe ts s).state
unfolding restore_all
restore_all-IsQuiet d probe [] s q = q
restore_all-IsQuiet d probe ((id, t) ∷ ts) s q =
    restore_all-IsQuiet d probe ts (restore_one d probe id t s)
      (restore_one-IsQuiet d probe id t s q)

-- The three tests before anything is restored.
through :
    (P : System → Type 0) (a b c : Bool) {s t : System}
    → P s
    → P t
    → P (if a then s else if b then s else if c then s else t)
through P true b c h k = h
through P false true c h k = h
through P false false true h k = h
through P false false false h k = k

stopped :
    (a b c : Bool) {s : System} (t : System)
    → b ≡ true
    → (if a then s else if b then s else if c then s else t) ≡ s
stopped true b c t e = refl
stopped false true c t e = refl
stopped false false c t e = cc

started-IsQuiet : (c : OverclockConfig) → IsQuiet (started c)
started-IsQuiet c = record { no_trial = refl; unarmed = refl; no_failure = refl }

start-IsQuiet :
    (d : Driver) (probe : List GpuProbe) (c : OverclockConfig) (w : World)
    → IsQuiet (start d probe c w).state
unfolding start restore_on_start
start-IsQuiet d probe c w =
    through (λ s. IsQuiet s.state) (not c.restore_on_start || all (λ x. is_stock x.1) c.targets)
      (is_some c.armed_gpu) (not (has_consent (record c { armed_gpu = none })))
      {s = record { state = started c; world = w }} (started-IsQuiet c)
      (restore_all-IsQuiet d probe c.targets (record { state = started c; world = w })
        (started-IsQuiet c))

abbrev pub booted : Driver → List GpuProbe → OverclockConfig → World → Daemon
booted d probe c w = record { system = start d probe c w; probe = probe }

armed_start :
    (d : Driver) (probe : List GpuProbe) (c : OverclockConfig) (w : World)
    → is_some c.armed_gpu ≡ true
    → start d probe c w ≡ record { state = started c; world = w }
unfolding start restore_on_start
armed_start d probe c w e =
    stopped (not c.restore_on_start || all (λ x. is_stock x.1) c.targets) (is_some c.armed_gpu)
      (not (has_consent (record c { armed_gpu = none })))
      (restore_all d probe c.targets (record { state = started c; world = w })) e

saved_armed :
    (v : View) (c : OverclockConfig) (g : String)
    → IsSafe v
    → v.failed ≡ false
    → v.trial ≡ some g
    → v.disk ≡ some c
    → c.armed_gpu ≡ some g
saved_armed v c g h f t e = ground (arith, h.saved)

-- A machine that stops while a change is on trial comes back at stock. However a daemon was started
-- and whatever was called in whatever order, also between the halves of a revert: if a change is on
-- trial and the last save succeeded, a start from what is on disk calls the driver not once,
-- applies nothing, and says that the change was never confirmed.
pub crash-restores_nothing :
    (d d' : Driver) (probe probe' : List GpuProbe) (c0 c : OverclockConfig) (w w' : World)
    (es : List Event) (p : Pending)
    → (runs d (booted d probe c0 w) es).system.state.pending ≡ some p
    → (runs d (booted d probe c0 w) es).system.state.save_failed ≡ false
    → (runs d (booted d probe c0 w) es).system.world.disk ≡ some c
    → ((start d' probe' c w').world ≡ w')
      × ((start d' probe' c w').state.applied ≡ [])
      × ((start d' probe' c w').state.unconfirmed_at_start ≡ true)
crash-restores_nothing d d' probe probe' c0 c w w' es p t f e =
    let v = view (runs d (booted d probe c0 w) es).system in
    let armed : c.armed_gpu ≡ some p.gpu =
      saved_armed v c p.gpu
        (runs-IsSafe d (booted d probe c0 w) es
          (IsQuiet-IsSafe (start d probe c0 w) (start-IsQuiet d probe c0 w)))
        f (ap gpu_of t) e in
    let same = armed_start d' probe' c w' (ap is_some armed) in
    (
      ap (λ s. s.world) same,
      ap (λ s. s.state.applied) same,
      ap (λ s. s.state.unconfirmed_at_start) same ∙ ap is_some armed,
    )
