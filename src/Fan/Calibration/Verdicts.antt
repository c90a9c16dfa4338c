-- ===== src/Fan/Calibration/Verdicts.antt =====
-- daemon/crates/fan/src/calibration.rs: what a stored number is evidence of.
use mathlib.Core.List.{append-nil, append_assoc}
use pyren.Base.{
  ℕ, ◌≤◌, ◌<◌, ◌≡◌, ◌⊎◌, inl, inr, refl, sym, ◌∙◌, subst, arith, Bool, true, false, not, ◌||◌,
  Option, none, some, List, [], ◌∷◌, ◌++◌, if◌then◌else◌, any, All, ℤ, pos, pos_part, neg_part,
  ◌+ℤ◌, ◌-ℤ◌, ◌≤ℤ◌, leb_ℤ, ltb_ℤ, eqb_ℤ, max_ℤ, wrap_i64, wrap-fits, int_laws,
}
use pyren.Fan.Calibration.{
  Sample, faster, Run, new, push, verdict_of, finish, FloorRun, new_floor, push_floor, last_sample,
  rest_of, finish_floor,
}

abbrev pub pushes : Run → List Sample → Run
pushes r [] = r
pushes r (s ∷ ss) = pushes (push r s) ss

max_left : (a b : ℤ) → a ≤ℤ max_ℤ a b
max_left a b = ground arith

max_right : (a b : ℤ) → b ≤ℤ max_ℤ a b
max_right a b = ground arith

pushes-peak : (r : Run) (ss : List Sample) → r.peak ≤ℤ (pushes r ss).peak
unfolding push
pushes-peak r [] = omega arith
pushes-peak r (s ∷ ss) = omega (arith, max_left r.peak (faster s), pushes-peak (push r s) ss)

pushes-upper : (r : Run) (ss : List Sample) → All (λ s. faster s ≤ℤ (pushes r ss).peak) ss
unfolding push
pushes-upper r [] = tt
pushes-upper r (s ∷ ss) = (
  omega (arith, max_right r.peak (faster s), pushes-peak (push r s) ss),
  pushes-upper (push r s) ss,
)

-- The peak is a sample's, or the one before.
abbrev Attained : ℤ → ℤ → List Sample → Type 0
Attained peak before ss = (peak ≡ before) ⊎ (any (λ s. eqb_ℤ (faster s) peak) ss ≡ true)

max_either : (a b : ℤ) → (max_ℤ a b ≡ a) ⊎ (max_ℤ a b ≡ b)
max_either a b = ground arith

eqb_refl : (a b : ℤ) → b ≡ a → eqb_ℤ a b ≡ true
eqb_refl a b e = ground arith

or_true : (b : Bool) → (b || true) ≡ true
or_true true = refl
or_true false = refl

Attained-cons :
    (peak before : ℤ) (s : Sample) (ss : List Sample)
    → Attained peak (max_ℤ before (faster s)) ss
    → Attained peak before (s ∷ ss)
Attained-cons peak before s ss (inr a) = inr (rw a (or_true (eqb_ℤ (faster s) peak)))
Attained-cons peak before s ss (inl e) = elim (max_either before (faster s)) [
  | inl old ↦ inl (e ∙ old)
  | inr new_top ↦ inr (rw (eqb_refl (faster s) peak (e ∙ new_top)) refl)
]

pushes-Attained : (r : Run) (ss : List Sample) → Attained (pushes r ss).peak r.peak ss
unfolding push
pushes-Attained r [] = inl refl
pushes-Attained r (s ∷ ss) =
    Attained-cons (pushes r (s ∷ ss)).peak r.peak s ss (pushes-Attained (push r s) ss)

pushes-reverse :
    (r : Run) (ss : List Sample)
    → (pushes r ss).saw_reverse ≡ (r.saw_reverse || any (λ s. s.is_reverse) ss)
unfolding push
pushes-reverse r [] = ground arith
pushes-reverse r (s ∷ ss) = ground (arith, pushes-reverse (push r s) ss)

pushes-baseline :
    (r : Run) (ss : List Sample)
    → ((pushes r ss).baseline ≡ r.baseline) × ((pushes r ss).started_at_max ≡ r.started_at_max)
unfolding push
pushes-baseline r [] = (refl, refl)
pushes-baseline r (s ∷ ss) = pushes-baseline (push r s) ss

-- A difference that is an `i64`.
abbrev pub Fits : ℤ → ℤ → Type 0
Fits a b = (pos_part (a -ℤ b) < 9223372036854775808) × (neg_part (a -ℤ b) ≤ 9223372036854775808)

stored :
    (r : Run) (elapsed : ℕ) (p : ℤ)
    → (finish r elapsed).fan_max_rpm ≡ some p
    → (r.peak ≡ p)
      × (pos 1 ≤ℤ p)
      × (r.saw_reverse ≡ false)
      × ((r.started_at_max || not (ltb_ℤ (wrap_i64 (r.peak -ℤ r.baseline)) (pos 300))) ≡ true)
unfolding finish verdict_of
stored r elapsed p h = ground arith

not_less : (a b : ℤ) → ltb_ℤ a b ≡ false → b ≤ℤ a
not_less a b h = ground arith

risen : (a b : ℤ) → Fits a b → ltb_ℤ (wrap_i64 (a -ℤ b)) (pos 300) ≡ false → b +ℤ pos 300 ≤ℤ a
risen a b f h = omega (
  int_laws,
  not_less (a -ℤ b) (pos 300) (rw (wrap-fits 9223372036854775808 (a -ℤ b) f.0 f.1) at h),
)

-- What a stored ceiling is evidence of.
pub record IsCeiling (p baseline : ℤ) (started_at_max : Bool) (ss : List Sample) : Type 0 where
  pub upper : All (λ s. faster s ≤ℤ p) ss
  pub attained : any (λ s. eqb_ℤ (faster s) p) ss ≡ true
  pub forwards : any (λ s. s.is_reverse) ss ≡ false
  pub rises : (started_at_max ≡ true) ⊎ (baseline +ℤ pos 300 ≤ℤ p)

rises_either :
    (b : Bool) (p baseline : ℤ)
    → Fits p baseline
    → (b || not (ltb_ℤ (wrap_i64 (p -ℤ baseline)) (pos 300))) ≡ true
    → (b ≡ true) ⊎ (baseline +ℤ pos 300 ≤ℤ p)
rises_either true p baseline f h = inl refl
rises_either false p baseline f h =
    inr (risen p baseline f (not_true (ltb_ℤ (wrap_i64 (p -ℤ baseline)) (pos 300)) h))
  where
    not_true : (b : Bool) → not b ≡ true → b ≡ false
    not_true true e = ground arith
    not_true false e = refl

any-Attained :
    (top p : ℤ) (ss : List Sample)
    → top ≡ p
    → pos 1 ≤ℤ p
    → Attained top (pos 0) ss
    → any (λ s. eqb_ℤ (faster s) p) ss ≡ true
any-Attained top p ss e h (inl z) = absurd (above_absurd p h (sym e ∙ z))
  where
    above_absurd : (p : ℤ) → pos 1 ≤ℤ p → p ≡ pos 0 → ⊥
    above_absurd p h z = ground arith
any-Attained top p ss e h (inr a) = subst (λ q. any (λ s. eqb_ℤ (faster s) q) ss ≡ true) e a

-- The ceiling that a run stores is the fastest reading of its samples: none is above it and one is
-- it. No fan span backwards in any of them, and, unless the fans were at full speed when the run
-- began, it is at least 300 rpm above the reading before the run. The difference of the two readings
-- is taken to be an `i64`.
pub finish-IsCeiling :
    (baseline : ℤ) (started_at_max : Bool) (limit elapsed : ℕ) (ss : List Sample) (p : ℤ)
    → Fits p baseline
    → (finish (pushes (new baseline started_at_max limit) ss) elapsed).fan_max_rpm ≡ some p
    → IsCeiling p baseline started_at_max ss
unfolding new
finish-IsCeiling baseline started_at_max limit elapsed ss p f h =
    let r0 = new baseline started_at_max limit in
    let st = stored (pushes r0 ss) elapsed p h in
    record {
      upper = subst (λ q. All (λ s. faster s ≤ℤ q) ss) st.0 (pushes-upper r0 ss);
      attained = any-Attained (pushes r0 ss).peak p ss st.0 st.1 (pushes-Attained r0 ss);
      forwards = sym (pushes-reverse r0 ss) ∙ st.2;
      rises =
          rises_either started_at_max p baseline f
            (rw (st.0, (pushes-baseline r0 ss).0, (pushes-baseline r0 ss).1) at st.3);
    }

abbrev pub floor_pushes : FloorRun → List Sample → FloorRun
floor_pushes r [] = r
floor_pushes r (s ∷ ss) = floor_pushes (push_floor r s) ss

floor_pushes-samples :
    (r : FloorRun) (ss : List Sample) → (floor_pushes r ss).samples ≡ r.samples ++ ss
unfolding push_floor
floor_pushes-samples r [] = sym (append-nil r.samples)
floor_pushes-samples r (s ∷ ss) =
    floor_pushes-samples (push_floor r s) ss ∙ append_assoc r.samples (s ∷ []) ss

floor_pushes-reverse :
    (r : FloorRun) (ss : List Sample)
    → (floor_pushes r ss).saw_reverse ≡ (r.saw_reverse || any (λ s. s.is_reverse) ss)
unfolding push_floor
floor_pushes-reverse r [] = ground arith
floor_pushes-reverse r (s ∷ ss) = ground (arith, floor_pushes-reverse (push_floor r s) ss)

-- What a stored floor is evidence of.
abbrev pub IsFloor : ℤ → ℤ → List Sample → Type 0
IsFloor rest peak ss =
    ((s : Sample) × (last_sample ss ≡ some s) × (faster s ≡ rest))
    × (any (λ s. s.is_reverse) ss ≡ false)
    × (rest +ℤ pos 300 ≤ℤ peak)

told : (b : Bool) (x rest : ℤ) → (if b then some x else none) ≡ some rest → (x ≡ rest) × (b ≡ true)
told true x rest h = (cc, refl)
told false x rest h = absurd cc

fallen :
    (peak rest : ℤ)
    → Fits peak rest
    → leb_ℤ (pos 300) (wrap_i64 (peak -ℤ rest)) ≡ true
    → rest +ℤ pos 300 ≤ℤ peak
fallen peak rest f h = omega (
  int_laws,
  at_most (pos 300) (peak -ℤ rest) (rw (wrap-fits 9223372036854775808 (peak -ℤ rest) f.0 f.1) at h),
)
  where
    at_most : (a b : ℤ) → leb_ℤ a b ≡ true → a ≤ℤ b
    at_most a b h = ground arith

rest_of-parts :
    (peak rest : ℤ) (o : Option Sample)
    → Fits peak rest
    → rest_of peak o ≡ some rest
    → ((s : Sample) × (o ≡ some s) × (faster s ≡ rest)) × (rest +ℤ pos 300 ≤ℤ peak)
rest_of-parts peak rest none f h = absurd cc
rest_of-parts peak rest (some s) f h =
    let t = told (leb_ℤ (pos 300) (wrap_i64 (peak -ℤ faster s))) (faster s) rest h in
    ((s, refl, t.0), fallen peak rest f (rw t.0 at t.1))

floor_stored :
    (r : FloorRun) (peak rest : ℤ)
    → finish_floor r peak ≡ some rest
    → (r.saw_reverse ≡ false) × (rest_of peak (last_sample r.samples) ≡ some rest)
unfolding finish_floor
floor_stored r peak rest h = go r.saw_reverse (rest_of peak (last_sample r.samples)) h
  where
    go :
        (b : Bool) (o : Option ℤ)
        → (if b then none else o) ≡ some rest
        → (b ≡ false) × (o ≡ some rest)
    go true o e = absurd cc
    go false o e = (refl, e)

-- The floor that a run stores is the speed of its last sample, at least 300 rpm below the ceiling,
-- and no fan span backwards in any sample. The difference of the two speeds is taken to be an
-- `i64`.
pub finish_floor-IsFloor :
    (limit : ℕ) (ss : List Sample) (peak rest : ℤ)
    → Fits peak rest
    → finish_floor (floor_pushes (new_floor limit) ss) peak ≡ some rest
    → IsFloor rest peak ss
unfolding new_floor
finish_floor-IsFloor limit ss peak rest f h =
    let r0 = new_floor limit in
    let st = floor_stored (floor_pushes r0 ss) peak rest h in
    let parts =
      rest_of-parts peak rest (last_sample ss) f (rw (floor_pushes-samples r0 ss) at st.1) in
    (parts.0, sym (floor_pushes-reverse r0 ss) ∙ st.0, parts.1)
