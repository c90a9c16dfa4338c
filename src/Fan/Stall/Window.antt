-- ===== src/Fan/Stall/Window.antt =====
-- The fault trail of daemon/crates/fan/src/stall.rs: bounded, in order of time, and pruned to the
-- window.
use pyren.Base.{
  ℕ, ◌+◌, ◌-◌, ◌≤◌, ◌<◌, ◌≡◌, refl, Bool, not, List, [], ◌∷◌, ◌++◌, ltb, arith, length, keep,
  Rising, ℤ, some, Bool-cases, inl, inr, Option,
}
use pyren.Fan.Stall.{StallWatch, window_secs, trigger, prune, count_fault, observe, fresh}

abbrev pub in_window : ℕ → ℕ → Bool
in_window now t = not (ltb window_secs (now - t))

Rising-in_window :
    (lo now : ℕ) (ts : List ℕ)
    → Rising lo now ts
    → now ≤ lo + window_secs
    → keep (in_window now) ts ≡ ts
Rising-in_window lo now [] r h = refl
Rising-in_window lo now (t ∷ ts) r h = ground (arith, Rising-in_window t now ts r.2 (omega arith))

-- Popping old faults off the front drops every fault older than the window and no other.
pub prune-eq-keep :
    (lo now : ℕ) (ts : List ℕ) → Rising lo now ts → prune now ts ≡ keep (in_window now) ts
unfolding prune
prune-eq-keep lo now [] r = refl
prune-eq-keep lo now (t ∷ ts) r =
    ground (arith, prune-eq-keep t now ts r.2, Rising-in_window t now ts r.2)

-- The bounds may be widened.
pub Rising-mono :
    (lo lo' hi hi' : ℕ) (ts : List ℕ) → lo' ≤ lo → hi ≤ hi' → Rising lo hi ts → Rising lo' hi' ts
Rising-mono lo lo' hi hi' [] h k r = tt
Rising-mono lo lo' hi hi' (t ∷ ts) h k r =
    (omega arith, omega arith, Rising-mono t t hi hi' ts (omega arith) k r.2)

prune-Rising : (lo hi now : ℕ) (ts : List ℕ) → Rising lo hi ts → Rising lo hi (prune now ts)
unfolding prune
prune-Rising lo hi now [] r = tt
prune-Rising lo hi now (t ∷ ts) r =
    ground
      (arith, prune-Rising t hi now ts r.2, Rising-mono t lo hi hi (prune now ts) r.0 (omega arith))

Rising-snoc : (lo hi : ℕ) (ts : List ℕ) → lo ≤ hi → Rising lo hi ts → Rising lo hi (ts ++ hi ∷ [])
Rising-snoc lo hi [] h r = (h, omega arith, tt)
Rising-snoc lo hi (t ∷ ts) h r = (r.0, r.1, Rising-snoc t hi ts r.1 r.2)

length-prune : (now : ℕ) (ts : List ℕ) → length (prune now ts) ≤ length ts
unfolding prune
length-prune now [] = omega arith
length-prune now (t ∷ ts) = ground (arith, length-prune now ts)

-- What holds of the watch between two ticks, the last of them at `now`.
pub record Inv (now : ℕ) (w : StallWatch) : Type 0 where
  pub bounded : length w.faults < trigger
  pub ordered : Rising 0 now w.faults
  pub raised : (r : ℕ) → w.last_raise ≡ some r → r ≤ now

count_fault-Inv : (w : StallWatch) (now : ℕ) → Inv now w → Inv now (count_fault w now).0
unfolding count_fault
count_fault-Inv w now v = elim (Bool-cases (ltb (length (w.faults ++ now ∷ [])) trigger)) [
  | inl few ↦ rw few (record {
    bounded = ground arith;
    ordered = Rising-snoc 0 now w.faults (omega arith) v.ordered;
    raised = v.raised;
  })
  | inr many ↦ rw many (record { bounded = omega arith; ordered = tt; raised = v.raised })
]

-- Pruning and remembering a reading keep it.
pub pruned-Inv :
    (w : StallWatch) (now later : ℕ) (rpm : Option ℤ)
    → now ≤ later
    → Inv now w
    → Inv later (record w { faults = prune later w.faults; last_rpm = rpm })
pruned-Inv w now later rpm h v = record {
  bounded = omega (arith, length-prune later w.faults, v.bounded);
  ordered =
      Rising-mono 0 0 now later (prune later w.faults) (omega arith) h
        (prune-Rising 0 now later w.faults v.ordered);
  raised = λ r e. omega (arith, v.raised r e);
}

-- A tick, watched at a time not before the last one, leaves fewer than three faults on the trail, in
-- order of time, and no raise in the future.
pub observe-Inv :
    (w : StallWatch) (now later : ℕ) (expected measured : ℤ) (steady : Bool)
    → now ≤ later
    → Inv now w
    → Inv later (observe w later expected measured steady).0
unfolding observe
observe-Inv w now later expected measured steady h v = ground (
  arith,
  pruned-Inv w now later (some measured) h v,
  count_fault-Inv (record w { faults = prune later w.faults; last_rpm = some measured }) later,
)

-- Before the first tick.
pub fresh-Inv : (now : ℕ) → Inv now fresh
fresh-Inv now = record { bounded = omega arith; ordered = tt; raised = λ r e. cc }
