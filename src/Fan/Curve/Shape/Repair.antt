-- ===== src/Fan/Curve/Shape/Repair.antt =====
-- What `repair` of daemon/crates/fan/src/curve.rs makes of a stored curve.
use pyren.Base.{
  ℕ, zero, suc, ◌≤◌, ◌<◌, ◌≡◌, ◌≢◌, refl, true, false, ◌&&◌, Option, none, some, List, [], ◌∷◌, leb,
  length, length-take, length-map, take, keep, map, All, arith, F64, whole, unit_pos, ltb_F, ap,
  min, Bool-cases, inl, inr,
}
use pyren.Fan.Curve.Shape.{
  CurvePoint, CurveProblem, sort, points_problem, in_range, first_drop, drop_problem,
  max_curve_points, validate, max_F, is_finite_point, clamp_point, raise, repaired, repair,
}
use pyren.Fan.Curve.Shape.Sorting.{
  SortedFrom, IsSorted, sort-IsSorted, sort_sorted, length-sort, sort-All, IsOk,
  points_problem-none,
}

clamp_point-IsOk : (p : CurvePoint) → is_finite_point p ≡ true → IsOk (clamp_point p)
unfolding clamp_point
clamp_point-IsOk p h = ground (arith, unit_pos)

clamped-IsOk : (ps : List CurvePoint) → All IsOk (map clamp_point (keep is_finite_point ps))
clamped-IsOk [] = tt
clamped-IsOk (p ∷ ps) = elim (Bool-cases (is_finite_point p)) [
  | inl f ↦ rw f (clamp_point-IsOk p f, clamped-IsOk ps)
  | inr f ↦ rw f (clamped-IsOk ps)
]

take-All : (P : CurvePoint → Type 0) (n : ℕ) (ps : List CurvePoint) → All P ps → All P (take n ps)
take-All P zero ps h = tt
take-All P (suc n) [] h = tt
take-All P (suc n) (p ∷ ps) h = (h.0, take-All P n ps h.1)

take-SortedFrom :
    (lo : F64) (n : ℕ) (ps : List CurvePoint) → SortedFrom lo ps → SortedFrom lo (take n ps)
take-SortedFrom lo zero ps s = tt
take-SortedFrom lo (suc n) [] s = tt
take-SortedFrom lo (suc n) (p ∷ ps) s = (s.0, take-SortedFrom p.temp_c n ps s.1)

take-IsSorted : (n : ℕ) (ps : List CurvePoint) → IsSorted ps → IsSorted (take n ps)
take-IsSorted zero ps s = tt
take-IsSorted (suc n) [] s = tt
take-IsSorted (suc n) (p ∷ ps) s = take-SortedFrom p.temp_c n ps s

raise-All :
    (h : F64) (ps : List CurvePoint)
    → in_range (whole 100) h ≡ true
    → All IsOk ps
    → All IsOk (raise h ps)
unfolding raise
raise-All h [] r o = tt
raise-All h (p ∷ ps) r o = (ok_point, raise-All (max_F h p.percent) ps (ok_point.percent_ok) o.1)
  where
    ok_point : IsOk (record p { percent = max_F h p.percent })
    ok_point = record { temp_ok = (o.0).temp_ok; percent_ok = ground arith }

raise-SortedFrom :
    (lo h : F64) (ps : List CurvePoint) → SortedFrom lo ps → SortedFrom lo (raise h ps)
unfolding raise
raise-SortedFrom lo h [] s = tt
raise-SortedFrom lo h (p ∷ ps) s = (s.0, raise-SortedFrom p.temp_c (max_F h p.percent) ps s.1)

raise-IsSorted : (h : F64) (ps : List CurvePoint) → IsSorted ps → IsSorted (raise h ps)
unfolding raise
raise-IsSorted h [] s = tt
raise-IsSorted h (p ∷ ps) s = raise-SortedFrom p.temp_c (max_F h p.percent) ps s

max_F-ge : (h x : F64) → ltb_F (max_F h x) h ≡ false
max_F-ge h x = ground arith

raise-first_drop :
    (a : CurvePoint) (ps : List CurvePoint) → first_drop a (raise a.percent ps) ≡ none
unfolding raise first_drop
raise-first_drop a [] = refl
raise-first_drop a (p ∷ ps) =
    rw (max_F-ge a.percent p.percent)
      (raise-first_drop (record p { percent = max_F a.percent p.percent }) ps)

raise-drop_problem : (h : F64) (ps : List CurvePoint) → drop_problem (raise h ps) ≡ none
unfolding raise drop_problem
raise-drop_problem h [] = refl
raise-drop_problem h (p ∷ ps) = raise-first_drop (record p { percent = max_F h p.percent }) ps

length-raise : (h : F64) (ps : List CurvePoint) → length (raise h ps) ≡ length ps
unfolding raise
length-raise h [] = refl
length-raise h (p ∷ ps) = ap suc (length-raise (max_F h p.percent) ps)

abbrev trimmed : List CurvePoint → List CurvePoint
trimmed c = take max_curve_points (sort (map clamp_point (keep is_finite_point c)))

length-repaired :
    (c : List CurvePoint) → length (repaired c) ≡ min 16 (length (keep is_finite_point c))
unfolding repaired
length-repaired c = omega (
  arith,
  length-raise (whole 0) (trimmed c),
  length-take 16 (sort (map clamp_point (keep is_finite_point c))),
  length-sort (map clamp_point (keep is_finite_point c)),
  length-map (keep is_finite_point c) clamp_point,
)

zero_in_range : in_range (whole 100) (whole 0) ≡ true
zero_in_range = ground (arith, unit_pos)

repaired-points : (c : List CurvePoint) → points_problem (repaired c) ≡ none
unfolding repaired
repaired-points c = points_problem-none (raise (whole 0) (trimmed c)) (
    raise-All (whole 0) (trimmed c) zero_in_range (
      take-All IsOk 16 (sort (map clamp_point (keep is_finite_point c)))
        (sort-All IsOk (map clamp_point (keep is_finite_point c)) (clamped-IsOk c))))

repaired-drop : (c : List CurvePoint) → drop_problem (sort (repaired c)) ≡ none
unfolding repaired
repaired-drop c =
    rw
      (sort_sorted (raise (whole 0) (trimmed c)) (
        raise-IsSorted (whole 0) (trimmed c) (
          take-IsSorted 16 (sort (map clamp_point (keep is_finite_point c)))
            (sort-IsSorted (map clamp_point (keep is_finite_point c))))))
      (raise-drop_problem (whole 0) (trimmed c))

count_ok :
    (c : List CurvePoint)
    → 2 ≤ length (keep is_finite_point c)
    → (leb 2 (length (repaired c)) && leb (length (repaired c)) 16) ≡ true
count_ok c h = ground (arith, length-repaired c)

validate-repaired :
    (c : List CurvePoint) → 2 ≤ length (keep is_finite_point c) → validate (repaired c) ≡ none
unfolding validate
validate-repaired c h = rw (count_ok c h) (rw (repaired-points c) (repaired-drop c))

count_short : (n : ℕ) → n < 2 → (leb 2 (min 16 n) && leb (min 16 n) 16) ≡ false
count_short n h = ground arith

short-validate :
    (c : List CurvePoint) → length (keep is_finite_point c) < 2 → validate (repaired c) ≢ none
unfolding validate
short-validate c h =
    rw (length-repaired c) (rw (count_short (length (keep is_finite_point c)) h) (λ e. cc))

repaired-cases :
    (c : List CurvePoint) (o : Option CurveProblem)
    → validate (repaired c) ≡ o
    → repair c ≡ elim o [ none ↦ some (repaired c) | some _ ↦ none ]
unfolding repair
repaired-cases c o e = rw (e, repair)

-- Two finite points are enough for a stored curve to be repaired into one that `validate` accepts,
-- whatever its order, its range or its dips.
pub repair-valid :
    (c : List CurvePoint)
    → 2 ≤ length (keep is_finite_point c)
    → (repair c ≡ some (repaired c)) × (validate (repaired c) ≡ none)
repair-valid c h = (repaired-cases c none (validate-repaired c h), validate-repaired c h)

short-none :
    (c : List CurvePoint) (o : Option CurveProblem)
    → validate (repaired c) ≡ o
    → o ≢ none
    → repair c ≡ none
short-none c none e h = absurd (h refl)
short-none c (some x) e h = repaired-cases c (some x) e

-- With fewer than two finite points a stored curve is given up.
pub repair_too_short : (c : List CurvePoint) → length (keep is_finite_point c) < 2 → repair c ≡ none
repair_too_short c h = short-none c (validate (repaired c)) refl (short-validate c h)
