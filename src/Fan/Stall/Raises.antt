-- ===== src/Fan/Stall/Raises.antt =====
-- When the watch of daemon/crates/fan/src/stall.rs asks for a raise, and how often.
use pyren.Base.{
  Spaced, ℕ, ap, subst, ◌+◌, ◌≤◌, ◌<◌, ◌≡◌, refl, Bool, true, false, List, [], ◌∷◌, ◌++◌, Option,
  none, some, arith, length, length-append, keep, All, ℤ, ◌+ℤ◌, ◌≤ℤ◌,
}
use pyren.Fan.Stall.{
  StallWatch, Tick, quiet, fault, raise_floor, raise_cooldown_secs, kick_rpm, prune, cooling,
  stalled, kicked, count_fault, observe, Turn, watched, unwatched, time, act, turn, raises, fresh,
  idle, note_raised,
}
use pyren.Fan.Stall.Window.{
  Inv, in_window, prune-eq-keep, pruned-Inv, Rising-mono, observe-Inv, fresh-Inv,
}

count_fault_raise :
    (w : StallWatch) (now n : ℕ)
    → length w.faults < 3
    → (count_fault w now).1 ≡ raise_floor n
    → (n ≡ 3)
      × (length w.faults ≡ 2)
      × (cooling w now ≡ false)
      × ((count_fault w now).0.faults ≡ [])
unfolding count_fault
count_fault_raise w now n h e = ground (arith, length-append w.faults (now ∷ []))

pub cooling_same :
    (w : StallWatch) (now : ℕ) (fs : List ℕ) (rpm : Option ℤ)
    → cooling (record w { faults = fs; last_rpm = rpm }) now ≡ cooling w now
unfolding cooling
cooling_same w now fs rpm = refl

-- A raise is asked for only by a steady tick that is a stall or a kick, when it and the faults of
-- the last half hour are exactly three, outside the cooldown; the trail is then spent.
pub observe_raise :
    (w : StallWatch) (now later : ℕ) (expected measured : ℤ) (steady : Bool) (n : ℕ)
    → now ≤ later
    → Inv now w
    → (observe w later expected measured steady).1 ≡ raise_floor n
    → (n ≡ 3)
      × (length (keep (in_window later) w.faults) ≡ 2)
      × (steady ≡ true)
      × (cooling w later ≡ false)
      × ((observe w later expected measured steady).0.faults ≡ [])
unfolding observe
observe_raise w now later expected measured steady n h v e =
    let w' : StallWatch = record w { faults = prune later w.faults; last_rpm = some measured } in
    ground (
      arith,
      count_fault_raise w' later n,
      pruned-Inv w now later (some measured) h v,
      ap length (
          prune-eq-keep 0 later w.faults
            (Rising-mono 0 0 now later w.faults (omega arith) h v.ordered)),
      cooling_same w later (prune later w.faults) (some measured),
    )

-- The turns come in order of time, from `now` on.
abbrev pub InOrder : ℕ → List Turn → Type 0
InOrder now [] = Unit {0}
InOrder now (t ∷ ts) = (now ≤ time t) × InOrder (time t) ts

pub observe-last_raise :
    (w : StallWatch) (now : ℕ) (expected measured : ℤ) (steady : Bool)
    → (observe w now expected measured steady).0.last_raise ≡ w.last_raise
unfolding observe count_fault
observe-last_raise w now expected measured steady = ground arith

idle-last_raise : (w : StallWatch) → (idle w).last_raise ≡ w.last_raise
unfolding idle
idle-last_raise w = refl

cooled-gap :
    (w : StallWatch) (a later : ℕ)
    → w.last_raise ≡ some a
    → a ≤ later
    → cooling w later ≡ false
    → a + raise_cooldown_secs ≤ later
unfolding cooling
cooled-gap w a later e h c = ground arith

raise-Spaced :
    (w : StallWatch) (last : Option ℕ) (later : ℕ) (rest : List ℕ)
    → w.last_raise ≡ last
    → cooling w later ≡ false
    → ((a : ℕ) → w.last_raise ≡ some a → a ≤ later)
    → Spaced raise_cooldown_secs (some later) rest
    → Spaced raise_cooldown_secs last (later ∷ rest)
raise-Spaced w none later rest e c past after = after
raise-Spaced w (some a) later rest e c past after = (cooled-gap w a later e (past a e) c, after)

-- What a tick's answer means for the raises that follow.
act-Spaced :
    (later : ℕ) (w : StallWatch) (r : StallWatch × Tick) (rest : StallWatch → List ℕ)
    → r.0.last_raise ≡ w.last_raise
    → ((n : ℕ) → r.1 ≡ raise_floor n → cooling w later ≡ false)
    → ((a : ℕ) → w.last_raise ≡ some a → a ≤ later)
    → Spaced raise_cooldown_secs (act later r).0.last_raise (rest (act later r).0)
    → Spaced raise_cooldown_secs w.last_raise ((act later r).1 ++ rest (act later r).0)
unfolding note_raised
act-Spaced later w (w', quiet) rest same cool past after = rw (← same) after
act-Spaced later w (w', fault n) rest same cool past after = rw (← same) after
act-Spaced later w (w', raise_floor n) rest same cool past after =
    raise-Spaced w w.last_raise later (rest (note_raised w' later)) refl (cool n refl) past after

pub act-Inv : (later : ℕ) (r : StallWatch × Tick) → Inv later r.0 → Inv later (act later r).0
unfolding note_raised
act-Inv later (w', quiet) v = v
act-Inv later (w', fault n) v = v
act-Inv later (w', raise_floor n) v = record {
  bounded = v.bounded;
  ordered = v.ordered;
  raised = λ r e. ground arith;
}

pub idle-Inv : (now later : ℕ) (w : StallWatch) → now ≤ later → Inv now w → Inv later (idle w)
unfolding idle
idle-Inv now later w h v = record {
  bounded = v.bounded;
  ordered = Rising-mono 0 0 now later w.faults (omega arith) h v.ordered;
  raised = λ r e. omega (arith, v.raised r e);
}

raises-Spaced :
    (w : StallWatch) (now : ℕ) (ts : List Turn)
    → Inv now w
    → InOrder now ts
    → Spaced raise_cooldown_secs w.last_raise (raises w ts)
unfolding raises turn
raises-Spaced w now [] v o = tt
raises-Spaced w now (watched later expected measured steady ∷ ts) v o =
    act-Spaced later w r (λ u. raises u ts) (observe-last_raise w later expected measured steady)
      (λ n e. (observe_raise w now later expected measured steady n o.0 v e).3)
      (λ a e. omega (arith, v.raised a e))
      (raises-Spaced (act later r).0 later ts
        (act-Inv later r (observe-Inv w now later expected measured steady o.0 v)) o.1)
  where
    r : StallWatch × Tick
    r = observe w later expected measured steady
raises-Spaced w now (unwatched later ∷ ts) v o =
    subst (λ l. Spaced raise_cooldown_secs l (raises (idle w) ts)) (idle-last_raise w)
      (raises-Spaced (idle w) later ts (idle-Inv now later w o.0 v) o.1)

-- Whatever the readings, over a whole run from a fresh start two raises are at least the cooldown
-- of 300 seconds apart.
pub fresh-raises-Spaced :
    (ts : List Turn) → InOrder 0 ts → Spaced raise_cooldown_secs none (raises fresh ts)
fresh-raises-Spaced ts o = raises-Spaced fresh 0 ts (fresh-Inv 0) o

-- A fan that holds its speed: at least half of it, and not past it by more than the kick.
abbrev pub Holds : Turn → Type 0
Holds (watched _ expected measured _) =
    (stalled expected measured ≡ false) × (measured ≤ℤ expected +ℤ kick_rpm)
Holds (unwatched _) = Unit {0}

Holds-quiet :
    (w : StallWatch) (now : ℕ) (expected measured : ℤ) (steady : Bool)
    → stalled expected measured ≡ false
    → measured ≤ℤ expected +ℤ kick_rpm
    → (observe w now expected measured steady).1 ≡ quiet
unfolding observe kicked
Holds-quiet w now expected measured steady s k = ground arith

quiet-no_raise : (now : ℕ) (r : StallWatch × Tick) → r.1 ≡ quiet → (act now r).1 ≡ []
quiet-no_raise now (w, quiet) e = refl
quiet-no_raise now (w, fault n) e = cc
quiet-no_raise now (w, raise_floor n) e = cc

-- Fans that hold the commanded speed at every watched tick never have the floor raised, whatever the
-- watch remembers.
pub Holds-no_raise : (w : StallWatch) (ts : List Turn) → All Holds ts → raises w ts ≡ []
unfolding raises turn
Holds-no_raise w [] h = refl
Holds-no_raise w (watched now expected measured steady ∷ ts) h =
    rw
      (quiet-no_raise now (observe w now expected measured steady)
        (Holds-quiet w now expected measured steady h.0.0 h.0.1))
      (Holds-no_raise (act now (observe w now expected measured steady)).0 ts h.1)
Holds-no_raise w (unwatched now ∷ ts) h = Holds-no_raise (idle w) ts h.1
