-- ===== src/Fan/Safety/Checker/Steps.antt =====
-- What one call of the thermal checker of daemon/crates/fan/src/safety.rs changes, on every branch.
use pyren.Base.{
  ℕ, ◌≡◌, ◌≢◌, ◌⊎◌, ◌↔◌, refl, Bool, true, false, List, [], ◌∷◌, Option, none, some, ℤ, F64, F64Ops,
  arith, All, is_some_and, leb_F,
}
use pyren.Fan.Mode.{FanMode, auto, max}
use pyren.Fan.Safety.Critical.{HeatThresholds}
use pyren.Fan.Safety.Checker.{
  Phase, watching, answered, firmware, max_phase, Episode, Transition, unchanged, watching_began,
  handed_to_firmware, forced_max, restored, Evidence, Checker, phase_command, command, trip,
  advance, is_holding, cooled, begin, go_on, observe, is_hot, run,
}

-- What a transition says of the command before and after it.
abbrev pub Tells : Option FanMode → Transition → Option FanMode → Type 0
Tells before unchanged after = after ≡ before
Tells before watching_began after = (before ≡ none) × (after ≡ none)
Tells before handed_to_firmware after = (before ≡ none) × (after ≡ some auto)
Tells before forced_max after = (before ≡ some auto) × (after ≡ some max)
Tells before restored after = (before ≢ none) × (after ≡ none)

advance-Tells :
    (fl : F64Ops) (e : Evidence) (p : Phase)
    → Tells (phase_command p) (advance fl e p).1 (phase_command (advance fl e p).0)
unfolding advance
advance-Tells fl e (watching since baseline) = ground arith
advance-Tells fl e answered = refl
advance-Tells fl e max_phase = refl
advance-Tells fl e (firmware since baseline true) = refl
advance-Tells fl e (firmware since baseline false) = ground arith

holding-command : (p : Phase) → is_holding p ≡ true → phase_command p ≢ none
holding-command (watching since baseline) h = cc
holding-command answered h = cc
holding-command max_phase h = λ e. cc
holding-command (firmware since baseline done) h = λ e. cc

free-command : (p : Phase) → is_holding p ≡ false → phase_command p ≡ none
free-command (watching since baseline) h = refl
free-command answered h = refl
free-command max_phase h = cc
free-command (firmware since baseline done) h = cc

-- Every observation is reported as what it did: the fans go from the setting to the firmware, from the
-- firmware to full speed, and from either back to the setting, and no other way.
pub observe-Tells :
    (fl : F64Ops) (c : Checker) (e : Evidence) (thresholds : HeatThresholds) (enabled : Bool)
    → let (c', t) = observe fl c e thresholds enabled in Tells (command c) t (command c')
unfolding observe begin go_on command
observe-Tells fl none e thresholds enabled = ground arith
observe-Tells fl (some episode) e thresholds enabled = ground (
  arith,
  advance-Tells fl e episode.phase,
  holding-command episode.phase,
  free-command episode.phase,
)

-- An episode ends exactly when a reading is at or below its threshold, or when the setting is off and
-- it was not started by a trip.
pub observe-ends_iff :
    (fl : F64Ops) (episode : Episode) (e : Evidence) (thresholds : HeatThresholds) (enabled : Bool)
    → ((observe fl (some episode) e thresholds enabled).0 ≡ none)
      ↔ ((cooled e episode ≡ true) ⊎ ((enabled ≡ false) × (episode.tripped ≡ false)))
unfolding observe go_on
observe-ends_iff fl episode e thresholds enabled = ground arith

-- An episode begins exactly when the setting is on and a reading is at or above the hot threshold.
pub observe-begins_iff :
    (fl : F64Ops) (e : Evidence) (thresholds : HeatThresholds) (enabled : Bool)
    → ((observe fl none e thresholds enabled).0 ≢ none)
      ↔ ((enabled ≡ true) × (is_hot e thresholds ≡ true))
unfolding observe begin
observe-begins_iff fl e thresholds enabled = ground arith

-- The fans are held by an episode that a trip began and that ends at `cool_below`.
pub data Tripped (cool_below : F64) : Checker → Type 0 where
  held :
      (episode : Episode)
      → episode.cool_below ≡ cool_below
      → episode.tripped ≡ true
      → is_holding episode.phase ≡ true
      → Tripped cool_below (some episode)

advance_holding :
    (fl : F64Ops) (e : Evidence) (p : Phase)
    → is_holding p ≡ true
    → is_holding (advance fl e p).0 ≡ true
unfolding advance
advance_holding fl e (watching since baseline) h = cc
advance_holding fl e answered h = cc
advance_holding fl e max_phase h = refl
advance_holding fl e (firmware since baseline true) h = refl
advance_holding fl e (firmware since baseline false) h = ground arith

-- No reading of the run is at or below `cool_below`.
abbrev pub StaysHot : F64 → Evidence → Type 0
StaysHot cool_below e = is_some_and e.hottest_c (λ temp. leb_F temp cool_below) ≡ false

go_on-tripped :
    (fl : F64Ops) (e : Evidence) (episode : Episode) (enabled : Bool)
    → cooled e episode ≡ false
    → episode.tripped ≡ true
    → (go_on fl e episode enabled).0
      ≡ some (record episode { phase = (advance fl e episode.phase).0 })
unfolding go_on
go_on-tripped fl e episode enabled hot tripped = ground arith

observe-Tripped :
    (fl : F64Ops) (c : Checker) (e : Evidence) (thresholds : HeatThresholds) (enabled : Bool)
    (cool_below : F64)
    → Tripped cool_below c
    → StaysHot cool_below e
    → Tripped cool_below (observe fl c e thresholds enabled).0
unfolding observe
observe-Tripped fl c e thresholds enabled cool_below (held ep below tripped holding) h =
    rw (go_on-tripped fl e ep enabled (rw below h) tripped) (
      held (record ep { phase = (advance fl e ep.phase).0 }) below tripped
        (advance_holding fl e ep.phase holding))

run-Tripped :
    (fl : F64Ops) (thresholds : HeatThresholds) (enabled : Bool) (cool_below : F64) (c : Checker)
    (es : List Evidence)
    → Tripped cool_below c
    → All (StaysHot cool_below) es
    → Tripped cool_below (run fl c es thresholds enabled)
unfolding run
run-Tripped fl thresholds enabled cool_below c [] t h = t
run-Tripped fl thresholds enabled cool_below c (e ∷ es) t h =
    run-Tripped fl thresholds enabled cool_below (observe fl c e thresholds enabled).0 es
      (observe-Tripped fl c e thresholds enabled cool_below t h.0) h.1

trip-Tripped :
    (c : Checker) (now : ℕ) (rpm : Option ℤ) (cool_below : F64)
    → Tripped cool_below (trip c now rpm cool_below).0
unfolding trip
trip-Tripped c now rpm cool_below = held _ refl refl refl

trip-command :
    (c : Checker) (now : ℕ) (rpm : Option ℤ) (cool_below : F64)
    → command (trip c now rpm cool_below).0 ≡ some auto
unfolding trip command
trip-command c now rpm cool_below = refl

Tripped-command : (cool_below : F64) (c : Checker) → Tripped cool_below c → command c ≢ none
unfolding command
Tripped-command cool_below c (held episode below tripped holding) =
    holding-command episode.phase holding

-- `trip`, called by an aborted measurement in whatever state, gives the fans to the firmware; and
-- through every run of readings that are missing or above the `cool_below` of that call, whether
-- the setting is on or off, the episode that it began stays, and the fans are not given back to the
-- setting.
pub trip-run-Tripped :
    (fl : F64Ops) (thresholds : HeatThresholds) (enabled : Bool) (c : Checker) (now : ℕ)
    (rpm : Option ℤ) (cool_below : F64) (es : List Evidence)
    → All (StaysHot cool_below) es
    → let held = (trip c now rpm cool_below).0 in
      let after = run fl held es thresholds enabled in
      (command held ≡ some auto) × Tripped cool_below after × (command after ≢ none)
trip-run-Tripped fl thresholds enabled c now rpm cool_below es hot =
    let still =
      run-Tripped fl thresholds enabled cool_below (trip c now rpm cool_below).0 es
        (trip-Tripped c now rpm cool_below) hot in
    (
      trip-command c now rpm cool_below,
      still,
      Tripped-command cool_below (run fl (trip c now rpm cool_below).0 es thresholds enabled) still,
    )
