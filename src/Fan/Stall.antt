-- ===== src/Fan/Stall.antt =====
-- daemon/crates/fan/src/stall.rs: the rolling record of fan stalls near Pyren's floor. Times are
-- seconds of a monotonic clock. Speeds are i64 taken as integers: the products of `observe` stay in
-- range for every reading below 2 ^ 56.
pub mod Window
pub mod Raises
pub mod Third
mod Tests
use pyren.Base.{
  ℕ, zero, suc, ◌+◌, ◌-◌, ◌≤◌, ◌<◌, ◌≡◌, Bool, true, false, not, ◌&&◌, ◌||◌, List, [], ◌∷◌, ◌++◌,
  Option, none, some, ℤ, pos, scale, ◌+ℤ◌, ◌-ℤ◌, ltb, leb, ltb_ℤ, leb_ℤ, if◌then◌else◌, length,
  is_some_and,
}

-- Half an hour.
abbrev pub window_secs : ℕ
window_secs = 1800

abbrev pub trigger : ℕ
trigger = 3

abbrev pub raise_cooldown_secs : ℕ
raise_cooldown_secs = 300

abbrev pub stall_percent : ℕ
stall_percent = 50

abbrev pub kick_rpm : ℤ
kick_rpm = pos 300

pub data Tick : Type 0 where
  quiet : Tick
  fault : ℕ → Tick
  raise_floor : ℕ → Tick

-- The deque's front is the list's head.
pub record StallWatch : Type 0 where
  pub faults : List ℕ
  pub last_rpm : Option ℤ
  pub last_raise : Option ℕ

-- `StallWatch::default()`
abbrev pub fresh : StallWatch
fresh = record { faults = []; last_rpm = none; last_raise = none }

-- `while front is older than the window { pop_front }`
pub prune : ℕ → List ℕ → List ℕ
prune now [] = []
prune now (t ∷ ts) = if ltb window_secs (now - t) then prune now ts else t ∷ ts

pub cooling : StallWatch → ℕ → Bool
cooling w now = is_some_and w.last_raise (λ raised. ltb (now - raised) raise_cooldown_secs)

pub stalled : ℤ → ℤ → Bool
stalled expected measured = ltb_ℤ (scale 100 measured) (scale stall_percent expected)

pub kicked : Option ℤ → ℤ → ℤ → Bool
kicked previous expected measured =
    is_some_and previous (λ prev. ltb_ℤ kick_rpm (measured -ℤ prev))
    && ltb_ℤ (expected +ℤ kick_rpm) measured

-- What `observe` does once the tick is known to be a fault: `w` is pruned and remembers the reading.
pub count_fault : StallWatch → ℕ → StallWatch × Tick
count_fault w now =
    let faults = w.faults ++ now ∷ [] in
    let count = length faults in
    if ltb count trigger
    then (record w { faults = faults }, fault count)
    else (record w { faults = [] }, if cooling w now then fault count else raise_floor count)

pub observe : StallWatch → ℕ → ℤ → ℤ → Bool → StallWatch × Tick
observe w now expected measured steady =
    let w' = record w { faults = prune now w.faults; last_rpm = some measured } in
    if not steady || leb_ℤ expected (pos 0)
    then (w', quiet)
    else if stalled expected measured || kicked w.last_rpm expected measured
    then count_fault w' now
    else (w', quiet)

pub idle : StallWatch → StallWatch
idle w = record w { last_rpm = none }

unfoldable pub note_raised : StallWatch → ℕ → StallWatch
note_raised w now = record w { last_raise = some now }

pub recent_faults : StallWatch → ℕ
recent_faults w = length w.faults

-- One turn of the control loop: a tick that is watched, and one that is not. A tick that asks for a
-- raise is acted on at once, as the loop does.
pub data Turn : Type 0 where
  watched : ℕ → ℤ → ℤ → Bool → Turn
  unwatched : ℕ → Turn

abbrev pub time : Turn → ℕ
time (watched now _ _ _) = now
time (unwatched now) = now

abbrev pub act : ℕ → StallWatch × Tick → StallWatch × List ℕ
act now (w, quiet) = (w, [])
act now (w, fault _) = (w, [])
act now (w, raise_floor _) = (note_raised w now, now ∷ [])

-- The watch after a turn, and the moment of the raise, if there was one.
pub turn : StallWatch → Turn → StallWatch × List ℕ
turn w (watched now expected measured steady) = act now (observe w now expected measured steady)
turn w (unwatched now) = (idle w, [])

-- A whole run: the moments at which the floor was raised, in order.
pub raises : StallWatch → List Turn → List ℕ
raises w [] = []
raises w (t ∷ ts) = let (w', r) = turn w t in r ++ raises w' ts
