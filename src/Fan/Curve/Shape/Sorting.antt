-- ===== src/Fan/Curve/Shape/Sorting.antt =====
-- Sorting the points of a curve by temperature, daemon/crates/fan/src/curve.rs.
use pyren.Base.{
  suc, ◌≡◌, refl, true, false, List, [], ◌∷◌, length, All, arith, F64, whole, ap, none, ◌∙◌,
}
use pyren.Fan.Curve.Shape.{
  CurvePoint, leb_total, insert, sort, point_problem, points_problem, in_range, max_curve_temp_c,
}

leb_total_total : (a b : F64) → leb_total a b ≡ false → leb_total b a ≡ true
leb_total_total a b h = ground arith

-- The points come in order of temperature, none of them under `lo`.
abbrev pub SortedFrom : F64 → List CurvePoint → Type 0
SortedFrom lo [] = Unit {0}
SortedFrom lo (p ∷ ps) = (leb_total lo p.temp_c ≡ true) × SortedFrom p.temp_c ps

abbrev pub IsSorted : List CurvePoint → Type 0
IsSorted [] = Unit {0}
IsSorted (p ∷ ps) = SortedFrom p.temp_c ps

insert-SortedFrom :
    (lo : F64) (p : CurvePoint) (ps : List CurvePoint)
    → leb_total lo p.temp_c ≡ true
    → SortedFrom lo ps
    → SortedFrom lo (insert p ps)
unfolding insert
insert-SortedFrom lo p [] h s = (h, tt)
insert-SortedFrom lo p (q ∷ qs) h s =
    ground (arith, leb_total_total p.temp_c q.temp_c, insert-SortedFrom q.temp_c p qs)

insert-IsSorted : (p : CurvePoint) (ps : List CurvePoint) → IsSorted ps → IsSorted (insert p ps)
unfolding insert
insert-IsSorted p [] s = tt
insert-IsSorted p (q ∷ qs) s =
    ground (arith, leb_total_total p.temp_c q.temp_c, insert-SortedFrom q.temp_c p qs)

pub sort-IsSorted : (ps : List CurvePoint) → IsSorted (sort ps)
unfolding sort
sort-IsSorted [] = tt
sort-IsSorted (p ∷ ps) = insert-IsSorted p (sort ps) (sort-IsSorted ps)

insert_first : (p : CurvePoint) (ps : List CurvePoint) → IsSorted (p ∷ ps) → insert p ps ≡ p ∷ ps
unfolding insert
insert_first p [] s = refl
insert_first p (q ∷ qs) s = ground arith

IsSorted-tail : (p : CurvePoint) (ps : List CurvePoint) → IsSorted (p ∷ ps) → IsSorted ps
IsSorted-tail p [] s = tt
IsSorted-tail p (q ∷ qs) s = s.1

pub sort_sorted : (ps : List CurvePoint) → IsSorted ps → sort ps ≡ ps
unfolding sort
sort_sorted [] s = refl
sort_sorted (p ∷ ps) s = ap (insert p) (sort_sorted ps (IsSorted-tail p ps s)) ∙ insert_first p ps s

length-insert : (p : CurvePoint) (ps : List CurvePoint) → length (insert p ps) ≡ suc (length ps)
unfolding insert
length-insert p [] = refl
length-insert p (q ∷ qs) = ground (arith, length-insert p qs)

pub length-sort : (ps : List CurvePoint) → length (sort ps) ≡ length ps
unfolding sort
length-sort [] = refl
length-sort (p ∷ ps) = omega (arith, length-insert p (sort ps), length-sort ps)

insert-All :
    (P : CurvePoint → Type 0) (p : CurvePoint) (ps : List CurvePoint)
    → P p
    → All P ps
    → All P (insert p ps)
unfolding insert
insert-All P p [] h hs = (h, tt)
insert-All P p (q ∷ qs) h hs = ground (arith, insert-All P p qs h hs.1)

pub sort-All : (P : CurvePoint → Type 0) (ps : List CurvePoint) → All P ps → All P (sort ps)
unfolding sort
sort-All P [] hs = tt
sort-All P (p ∷ ps) hs = insert-All P p (sort ps) hs.0 (sort-All P ps hs.1)

-- A point that `validate` has nothing against.
pub record IsOk (p : CurvePoint) : Type 0 where
  pub temp_ok : in_range max_curve_temp_c p.temp_c ≡ true
  pub percent_ok : in_range (whole 100) p.percent ≡ true

pub point_problem-none : (p : CurvePoint) → IsOk p → point_problem p ≡ none
unfolding point_problem
point_problem-none p h = ground arith

pub none-point_problem : (p : CurvePoint) → point_problem p ≡ none → IsOk p
unfolding point_problem
none-point_problem p h = ground arith

pub points_problem-none : (ps : List CurvePoint) → All IsOk ps → points_problem ps ≡ none
unfolding points_problem
points_problem-none [] h = refl
points_problem-none (p ∷ ps) h = rw (point_problem-none p h.0) (points_problem-none ps h.1)

pub none-points_problem : (ps : List CurvePoint) → points_problem ps ≡ none → All IsOk ps
unfolding points_problem
none-points_problem [] h = tt
none-points_problem (p ∷ ps) h =
    (none-point_problem p (ground arith), none-points_problem ps (ground arith))
