-- ===== src/Overclock/Plan/Climbing.antt =====
-- daemon/crates/overclock/src/plan.rs: where a climb goes and that it ends.
use pyren.Base.{
  dec_le, sym, ℕ, zero, suc, ◌+◌, ◌≤◌, ◌<◌, ◌≡◌, ◌⊎◌, refl, arith, true, false, Bool-cases, inl,
  inr, Option, none, some, List, [], ◌∷◌, leb, if◌then◌else◌, map_opt, ℤ, pos, pos_part, neg_part,
  ◌+ℤ◌, ◌-ℤ◌, ◌≤ℤ◌, scale, leb_ℤ, abs, wrap_i32, wrap-fits, abs_parts, eq_of_parts,
}
use pyren.Overclock.Plan.{
  Target, signum, step_towards, arrived, next_towards, climb, lock_last, finished, ramp,
}

abbrev pub InI32 : ℤ → Type 0
InI32 a = (pos_part a < 2147483648) × (neg_part a ≤ 2147483648)

-- How far apart two offsets are.
unfoldable pub dist : ℤ → ℤ → ℕ
dist a b = abs (b -ℤ a)

dist_parts :
    (a b : ℤ)
    → (dist a b + pos_part a + neg_part b ≡ pos_part b + neg_part a)
      ⊎ (dist a b + pos_part b + neg_part a ≡ pos_part a + neg_part b)
unfolding dist ◌-ℤ◌
dist_parts a b = ground arith

-- The step without the wraps.
unfoldable near : ℤ → ℤ → ℕ → ℤ
unfolding dist
near from to step = if leb (dist from to) step then to else from +ℤ scale step (signum (to -ℤ from))

near_up :
    (from to : ℤ) (step : ℕ)
    → step < dist from to
    → pos_part from + neg_part to < pos_part to + neg_part from
    → near from to step ≡ from +ℤ pos step
unfolding near dist ◌-ℤ◌ ◌+ℤ◌ scale
near_up from to step h k = ground arith

near_down :
    (from to : ℤ) (step : ℕ)
    → step < dist from to
    → pos_part to + neg_part from < pos_part from + neg_part to
    → near from to step ≡ from -ℤ pos step
unfolding near dist ◌-ℤ◌ ◌+ℤ◌ scale
near_down from to step h k = ground arith

near_last : (from to : ℤ) (step : ℕ) → dist from to ≤ step → near from to step ≡ to
unfolding near
near_last from to step h = ground arith

stepped-InI32 :
    (from to : ℤ) (step : ℕ)
    → InI32 from
    → InI32 to
    → step < dist from to
    → InI32 (from +ℤ scale step (signum (to -ℤ from)))
unfolding dist ◌-ℤ◌ ◌+ℤ◌ scale
stepped-InI32 from to step f t h = ground arith

leb_pos : {a b : ℕ} → a ≤ b → leb_ℤ (pos a) (pos b) ≡ true
leb_pos {a} {b} h = ground arith

leb_pos_no : {a b : ℕ} → b < a → leb_ℤ (pos a) (pos b) ≡ false
leb_pos_no {a} {b} h = ground arith

near_far :
    (from to : ℤ) (step : ℕ)
    → step < dist from to
    → near from to step ≡ from +ℤ scale step (signum (to -ℤ from))
unfolding near
near_far from to step h = ground arith

wrap_stepped :
    (from to : ℤ) (step : ℕ)
    → InI32 from
    → InI32 to
    → (if leb_ℤ (pos (dist from to)) (pos step)
        then to
        else wrap_i32 (from +ℤ scale step (signum (to -ℤ from))))
      ≡ near from to step
wrap_stepped from to step f t = elim (dec_le (dist from to) step) [
  | yes last ↦ rw (leb_pos last) (sym (near_last from to step last))
  | no far ↦
      let i = stepped-InI32 from to step f t (omega arith) in
      rw
        (
          leb_pos_no {a = dist from to} {b = step} (omega arith),
          wrap-fits 2147483648 (from +ℤ scale step (signum (to -ℤ from))) i.0 i.1,
        )
        (sym (near_far from to step (omega arith)))
]

step_towards-near :
    (from to : ℤ) (step : ℕ)
    → InI32 from
    → InI32 to
    → dist from to < 2147483648
    → step_towards from to step ≡ near from to step
unfolding step_towards near dist
step_towards-near from to step f t d =
    rw
      (wrap-fits 2147483648 (to -ℤ from) (omega (arith, abs_parts (to -ℤ from)))
        (omega (arith, abs_parts (to -ℤ from))))
      (rw (wrap-fits 2147483648 (pos (abs (to -ℤ from))) d (omega arith))
        (wrap_stepped from to step f t))

-- From `a` to `b` without going past it.
abbrev Between : ℤ → ℤ → ℤ → Type 0
Between a s b = ((a ≤ℤ s) × (s ≤ℤ b)) ⊎ ((b ≤ℤ s) × (s ≤ℤ a))

dist_up : (a : ℤ) (k : ℕ) → dist a (a +ℤ pos k) ≡ k
unfolding dist ◌-ℤ◌ ◌+ℤ◌
dist_up a k = ground arith

dist_down : (a : ℤ) (k : ℕ) → dist a (a -ℤ pos k) ≡ k
unfolding dist ◌-ℤ◌
dist_down a k = ground arith

apart :
    (a b : ℤ) (k : ℕ)
    → k < dist a b
    → (pos_part a + neg_part b < pos_part b + neg_part a)
      ⊎ (pos_part b + neg_part a < pos_part a + neg_part b)
apart a b k h = ground (arith, dist_parts a b)

near-dist : (from to : ℤ) (step : ℕ) → dist from (near from to step) ≤ step
near-dist from to step = elim (dec_le (dist from to) step) [
  | yes last ↦ rw (near_last from to step last) last
  | no far ↦ elim (apart from to step (omega arith)) [
    | inl up ↦ rw (near_up from to step (omega arith) up) (omega (arith, dist_up from step))
    | inr down ↦ rw (near_down from to step (omega arith) down) (omega (arith, dist_down from step))
  ]
]

near-Between : (from to : ℤ) (step : ℕ) → Between from (near from to step) to
unfolding near dist ◌-ℤ◌ ◌+ℤ◌ scale
near-Between from to step = ground arith

near_closer :
    (from to : ℤ) (step : ℕ)
    → (near from to step ≡ to) ⊎ (dist (near from to step) to + step ≡ dist from to)
unfolding near dist ◌-ℤ◌ ◌+ℤ◌ scale
near_closer from to step = ground arith

near-InI32 : (from to : ℤ) (step : ℕ) → InI32 from → InI32 to → InI32 (near from to step)
near-InI32 from to step f t = ground (arith, near-Between from to step)

dist_self : (a b : ℤ) → a ≡ b → dist a b ≡ 0
unfolding dist ◌-ℤ◌
dist_self a b h = ground arith

-- Offsets that are `i32` and near enough for their difference to be one.
pub record Near (a b : ℤ) : Type 0 where
  pub fits_a : InI32 a
  pub fits_b : InI32 b
  pub gap : dist a b < 2147483648

-- What one step does to an offset.
record Steps (step : ℕ) (a s b : ℤ) : Type 0 where
  small : dist a s ≤ step
  between : Between a s b
  closer : (s ≡ b) ⊎ (dist s b + step ≡ dist a b)

step_towards-Steps : (a b : ℤ) (step : ℕ) → Near a b → Steps step a (step_towards a b step) b
step_towards-Steps a b step n = rw (step_towards-near a b step n.fits_a n.fits_b n.gap) (record {
  small = near-dist a b step;
  between = near-Between a b step;
  closer = near_closer a b step;
})

not_further : (a s b : ℤ) (step : ℕ) → (s ≡ b) ⊎ (dist s b + step ≡ dist a b) → dist s b ≤ dist a b
not_further a s b step (inl e) = omega (arith, dist_self s b e)
not_further a s b step (inr e) = omega arith

step_towards-Near : (a b : ℤ) (step : ℕ) → Near a b → Near (step_towards a b step) b
step_towards-Near a b step n = rw (step_towards-near a b step n.fits_a n.fits_b n.gap) (record {
  fits_a = near-InI32 a b step n.fits_a n.fits_b;
  fits_b = n.fits_b;
  gap = omega (arith, n.gap, not_further a (near a b step) b step (near_closer a b step));
})

-- Both offsets of a request are near where the card is.
pub record Askable (from to : Target) : Type 0 where
  pub core : Near from.core_offset_mhz to.core_offset_mhz
  pub mem : Near from.mem_offset_mhz to.mem_offset_mhz

-- Steps enough for any climb.
abbrev pub enough : Target → Target → ℕ
enough from to =
    dist from.core_offset_mhz to.core_offset_mhz + dist from.mem_offset_mhz to.mem_offset_mhz

abbrev Small : Target → Target → Type 0
Small a s =
    (dist a.core_offset_mhz s.core_offset_mhz ≤ 15) × (dist a.mem_offset_mhz s.mem_offset_mhz ≤ 50)

abbrev Inside : Target → Target → Target → Type 0
Inside a s b =
    Between a.core_offset_mhz s.core_offset_mhz b.core_offset_mhz
    × Between a.mem_offset_mhz s.mem_offset_mhz b.mem_offset_mhz

-- Small steps from `current` that end at `to`, each of them between the one before and `to`. Only
-- the last one changes the clock lock.
abbrev pub IsClimb : Target → List Target → Target → Type 0
IsClimb current [] to = ⊥
IsClimb current (t ∷ []) to = Small current t × (t ≡ to)
IsClimb current (t ∷ u ∷ us) to =
    Small current t
    × Inside current t to
    × (t.core_clock ≡ current.core_clock)
    × IsClimb t (u ∷ us) to

abbrev Level : Target → Target → Type 0
Level a b = (a.core_offset_mhz ≡ b.core_offset_mhz) × (a.mem_offset_mhz ≡ b.mem_offset_mhz)

-- The same for the loop, which leaves the lock alone.
abbrev Walk : Target → List Target → Target → Type 0
Walk current [] to = Level current to
Walk current (t ∷ ts) to =
    Small current t × Inside current t to × (t.core_clock ≡ current.core_clock) × Walk t ts to

arrived-Level : (a b : Target) → arrived a b ≡ true → Level a b
arrived-Level a b h = (
  ground (arith, eq_of_parts a.core_offset_mhz b.core_offset_mhz),
  ground (arith, eq_of_parts a.mem_offset_mhz b.mem_offset_mhz),
)

at_to : (a b : Target) → enough a b ≤ 0 → arrived a b ≡ true
at_to a b h = ground (
  arith,
  dist_parts a.core_offset_mhz b.core_offset_mhz,
  dist_parts a.mem_offset_mhz b.mem_offset_mhz,
)

next-Askable : (a b : Target) → Askable a b → Askable (next_towards a b) b
next-Askable a b n = record {
  core = step_towards-Near a.core_offset_mhz b.core_offset_mhz 15 n.core;
  mem = step_towards-Near a.mem_offset_mhz b.mem_offset_mhz 50 n.mem;
}

next-Small : (a b : Target) → Askable a b → Small a (next_towards a b)
next-Small a b n = (
  (step_towards-Steps a.core_offset_mhz b.core_offset_mhz 15 n.core).small,
  (step_towards-Steps a.mem_offset_mhz b.mem_offset_mhz 50 n.mem).small,
)

next-Inside : (a b : Target) → Askable a b → Inside a (next_towards a b) b
next-Inside a b n = (
  (step_towards-Steps a.core_offset_mhz b.core_offset_mhz 15 n.core).between,
  (step_towards-Steps a.mem_offset_mhz b.mem_offset_mhz 50 n.mem).between,
)

-- An offset gets nearer unless it is there.
nearer :
    (a s b : ℤ) (step : ℕ) → 0 < step → Steps step a s b → (dist s b < dist a b) ⊎ (dist s b ≡ 0)
nearer a s b step h st = ground (arith, st.closer, dist_self s b)

not_arrived : (a b : Target) → arrived a b ≡ false → 0 < enough a b
not_arrived a b h = ground (
  arith,
  dist_parts a.core_offset_mhz b.core_offset_mhz,
  dist_parts a.mem_offset_mhz b.mem_offset_mhz,
)

next_enough :
    (a b : Target) (fuel : ℕ)
    → Askable a b
    → enough a b ≤ suc fuel
    → arrived a b ≡ false
    → enough (next_towards a b) b ≤ fuel
next_enough a b fuel n h e =
    let c =
      nearer a.core_offset_mhz (next_towards a b).core_offset_mhz b.core_offset_mhz 15 (omega arith)
        (step_towards-Steps a.core_offset_mhz b.core_offset_mhz 15 n.core) in
    let m =
      nearer a.mem_offset_mhz (next_towards a b).mem_offset_mhz b.mem_offset_mhz 50 (omega arith)
        (step_towards-Steps a.mem_offset_mhz b.mem_offset_mhz 50 n.mem) in
    omega (arith, c, m, not_arrived a b e)

-- A climb that fuel was enough for.
abbrev Walks : Option (List Target) → Target → Target → Type 0
Walks none current to = ⊥
Walks (some steps) current to = Walk current steps to

Walks-cons :
    (o : Option (List Target)) (a b : Target)
    → Askable a b
    → Walks o (next_towards a b) b
    → Walks (map_opt (λ steps. next_towards a b ∷ steps) o) a b
Walks-cons none a b n w = w
Walks-cons (some steps) a b n w = (next-Small a b n, next-Inside a b n, refl, w)

climb-Walks :
    (fuel : ℕ) (a b : Target) → Askable a b → enough a b ≤ fuel → Walks (climb fuel a b) a b
unfolding climb
climb-Walks zero a b n h = rw (at_to a b h) (arrived-Level a b (at_to a b h))
climb-Walks (suc fuel) a b n h = elim (Bool-cases (arrived a b)) [
  | inl there ↦ rw there (arrived-Level a b there)
  | inr far ↦ rw far (
      Walks-cons (climb fuel (next_towards a b) b) a b n
        (climb-Walks fuel (next_towards a b) b (next-Askable a b n) (next_enough a b fuel n h far)))
]

Level-record : (t to : Target) → Level t to → record t { core_clock = to.core_clock } ≡ to
Level-record t to l = cc

Level-Small : (t to : Target) → Level t to → Small t to
Level-Small t to l = (
  omega (arith, dist_self t.core_offset_mhz to.core_offset_mhz l.0),
  omega (arith, dist_self t.mem_offset_mhz to.mem_offset_mhz l.1),
)

lock_last-IsClimb :
    (a t : Target) (ts : List Target) (to : Target)
    → Walk a (t ∷ ts) to
    → IsClimb a (lock_last t ts to) to
lock_last-IsClimb a t [] to w = (w.0, Level-record t to w.3)
lock_last-IsClimb a t (u ∷ []) to w = (w.0, w.1, w.2, lock_last-IsClimb t u [] to w.3)
lock_last-IsClimb a t (u ∷ v ∷ vs) to w = (w.0, w.1, w.2, lock_last-IsClimb t u (v ∷ vs) to w.3)

finished-IsClimb :
    (a : Target) (steps : List Target) (to : Target)
    → Walk a steps to
    → IsClimb a (finished steps to) to
finished-IsClimb a [] to w = (Level-Small a to w, refl)
finished-IsClimb a (t ∷ ts) to w = lock_last-IsClimb a t ts to w

found :
    (o : Option (List Target)) (a b : Target)
    → Walks o a b
    → (steps : List Target) × (map_opt (λ ts. finished ts b) o ≡ some steps) × IsClimb a steps b
found none a b w = absurd w
found (some ts) a b w = (finished ts b, refl, finished-IsClimb a ts b w)

-- A ramp between targets whose offsets are `i32`, with differences that are, ends, in at most as
-- many rounds as the two differences together, and is a climb to its target: its last step is the
-- target, no step moves the core offset by more than 15 MHz or the memory offset by more than 50,
-- none goes past the target, and only the last one changes the clock lock.
pub ramp-IsClimb :
    (from to : Target) (fuel : ℕ)
    → Askable from to
    → enough from to ≤ fuel
    → (steps : List Target) × (ramp fuel from to ≡ some steps) × IsClimb from steps to
unfolding ramp
ramp-IsClimb from to fuel n h = found (climb fuel from to) from to (climb-Walks fuel from to n h)
