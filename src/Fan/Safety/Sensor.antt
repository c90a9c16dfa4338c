-- ===== src/Fan/Safety/Sensor.antt =====
-- daemon/crates/fan/src/safety.rs: what counts as a temperature, and the watch over the sensor that
-- a curve follows. Times are seconds of a monotonic clock.
use pyren.Base.{
  ℕ, ◌+◌, ◌-◌, ◌≡◌, Bool, true, false, not, ◌&&◌, ◌||◌, List, [], ◌∷◌, Option, none, some, ℤ, pos,
  ltb, leb, ltb_ℤ, leb_ℤ, eqb_ℤ, max_ℤ, if◌then◌else◌, is_some_and, filter_opt, map_opt, F64,
  of_int, arith, All, length, ◌⊎◌, ◌≤ℤ◌,
}

-- `pyren_core::sensors::MAX_PLAUSIBLE_C`
abbrev pub max_plausible_c : ℤ
max_plausible_c = pos 125

abbrev pub sensor_failure_ticks : ℕ
sensor_failure_ticks = 3

abbrev pub stale_sensor_secs : ℕ
stale_sensor_secs = 300

unfoldable pub plausible_c : ℤ → Bool
plausible_c t = ltb_ℤ (pos 0) t && leb_ℤ t max_plausible_c

unfoldable pub hotter : Option ℤ → Option ℤ → Option ℤ
hotter none b = b
hotter (some a) none = some a
hotter (some a) (some b) = some (max_ℤ a b)

unfoldable pub hottest_c : Option ℤ → Option ℤ → Option F64
unfolding hotter plausible_c
hottest_c cpu gpu =
    map_opt of_int (hotter (filter_opt plausible_c cpu) (filter_opt plausible_c gpu))

pub record SensorWatch : Type 0 where
  pub bad_ticks : ℕ  -- u32
  pub last : Option ℤ
  pub unchanged_since : ℕ

-- `SensorWatch::default()`, which `reset` goes back to.
abbrev pub fresh : SensorWatch
fresh = record { bad_ticks = 0; last = none; unchanged_since = 0 }

-- `u32::saturating_add(1)`
abbrev pub saturating_succ : ℕ → ℕ
saturating_succ n = if ltb n 4294967295 then n + 1 else n

abbrev pub reads : Option ℤ → ℤ → Bool
reads last temp = is_some_and last (λ t. eqb_ℤ t temp)

observe_missing : SensorWatch → SensorWatch
observe_missing w = record w { bad_ticks = saturating_succ w.bad_ticks; last = none }

observe_reading : SensorWatch → ℤ → ℕ → Bool → SensorWatch
observe_reading w temp now turning =
    let moved = not (reads w.last temp) || not turning in
    let since : ℕ = if moved then now else w.unchanged_since in
    let stale = leb stale_sensor_secs (now - since) in
    record {
      bad_ticks = if stale then saturating_succ w.bad_ticks else 0;
      last = if moved then some temp else w.last;
      unchanged_since = since;
    }

abbrev observe_filtered : SensorWatch → Option ℤ → ℕ → Bool → SensorWatch
observe_filtered w none now turning = observe_missing w
observe_filtered w (some temp) now turning = observe_reading w temp now turning

-- The watch after a tick; whether the sensor counts as failed is `failed` of it.
unfoldable pub observe : SensorWatch → Option ℤ → ℕ → Bool → SensorWatch
unfolding observe_missing observe_reading plausible_c
observe w reading now turning = observe_filtered w (filter_opt plausible_c reading) now turning

unfoldable pub failed : SensorWatch → Bool
failed w = leb sensor_failure_ticks w.bad_ticks

-- A reading is usable if there is one and it is a temperature.
abbrev pub usable : Option ℤ → Bool
usable reading = is_some_and reading plausible_c

-- One tick: the reading, the time, whether the fans turn.
pub record Look : Type 0 where
  pub reading : Option ℤ
  pub now : ℕ
  pub turning : Bool

pub watch : SensorWatch → List Look → SensorWatch
watch w [] = w
watch w (l ∷ ls) = watch (observe w l.reading l.now l.turning) ls

observe_unusable :
    (w : SensorWatch) (r : Option ℤ) (now : ℕ) (turning : Bool)
    → usable r ≡ false
    → (observe w r now turning).bad_ticks ≡ saturating_succ w.bad_ticks
unfolding observe
observe_unusable w r now turning h = ground arith

-- Readings that are missing or no temperature add up: the sensor has failed after a run of them
-- exactly if they and the bad ticks before them come to three or more.
pub unusable_run-failed :
    (w : SensorWatch) (ls : List Look)
    → All (λ (l : Look). usable l.reading ≡ false) ls
    → failed (watch w ls) ≡ leb 3 (w.bad_ticks + length ls)
unfolding failed watch
unusable_run-failed w [] h = ground arith
unusable_run-failed w (l ∷ ls) h = ground (
  arith,
  observe_unusable w l.reading l.now l.turning h.0,
  unusable_run-failed (observe w l.reading l.now l.turning) ls h.1,
)

-- A single plausible reading that differs from the last one, or comes with the fans stopped, clears a
-- failure, whatever came before.
pub changed_reading-clears :
    (w : SensorWatch) (t : ℤ) (now : ℕ) (turning : Bool)
    → plausible_c t ≡ true
    → (reads w.last t ≡ false) ⊎ (turning ≡ false)
    → failed (observe w (some t) now turning) ≡ false
unfolding failed observe
changed_reading-clears w t now turning p h = ground arith

-- A reading that stays the same while the fans turn is believed for 300 seconds from when it was
-- first seen; from then on every tick of it counts as bad.
pub frozen_reading-counts :
    (w : SensorWatch) (t : ℤ) (now : ℕ)
    → plausible_c t ≡ true
    → reads w.last t ≡ true
    → let w' = observe w (some t) now true in
      (w'.unchanged_since ≡ w.unchanged_since)
      × (w'.last ≡ w.last)
      × (w'.bad_ticks
          ≡ (if leb 300 (now - w.unchanged_since) then saturating_succ w.bad_ticks else 0))
unfolding observe
frozen_reading-counts w t now p h = ground arith

-- The hottest temperature is that of a plausible reading, and no plausible reading is above it; there
-- is none exactly if neither reading is plausible.
pub hotter_bounds :
    (cpu gpu : Option ℤ) (t : ℤ)
    → hotter (filter_opt plausible_c cpu) (filter_opt plausible_c gpu) ≡ some t
    → (plausible_c t ≡ true)
      × ((cpu ≡ some t) ⊎ (gpu ≡ some t))
      × ((c : ℤ) → cpu ≡ some c → plausible_c c ≡ true → c ≤ℤ t)
      × ((g : ℤ) → gpu ≡ some g → plausible_c g ≡ true → g ≤ℤ t)
unfolding hotter
hotter_bounds cpu gpu t e =
    (ground arith, ground arith, λ c ec pc. ground arith, λ g eg pg. ground arith)
