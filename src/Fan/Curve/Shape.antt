-- ===== src/Fan/Curve/Shape.antt =====
-- daemon/crates/fan/src/curve.rs: reading a curve, checking one, and repairing one. `sort_by` is a
-- stable sort; interpolation rounds with the arithmetic of `F64Ops`.
pub mod Sorting
pub mod Repair
pub mod Monotone
use pyren.Base.{
  ℕ, ◌≡◌, Bool, true, false, not, ◌&&◌, ◌||◌, Option, none, some, List, [], ◌∷◌, ltb, leb,
  if◌then◌else◌, length, take, keep, map, is_some, F64, F64Ops, fin, inf, neg_inf, nan, whole,
  is_finite, leb_F, ltb_F, leb_ℤ, map_opt,
}

pub record CurvePoint : Type 0 where
  pub temp_c : F64
  pub percent : F64

pub data Interpolation : Type 0 where
  smooth discrete : Interpolation

abbrev pub min_curve_points : ℕ
min_curve_points = 2

abbrev pub max_curve_points : ℕ
max_curve_points = 16

abbrev pub max_curve_temp_c : F64
max_curve_temp_c = whole 110

-- `a.total_cmp(b)` is not greater: NaN comes last.
abbrev pub leb_total : F64 → F64 → Bool
leb_total (fin a) (fin b) = leb_ℤ a b
leb_total neg_inf _ = true
leb_total _ nan = true
leb_total (fin _) inf = true
leb_total inf inf = true
leb_total _ _ = false

unfoldable pub insert : CurvePoint → List CurvePoint → List CurvePoint
insert p [] = p ∷ []
insert p (q ∷ qs) = if leb_total p.temp_c q.temp_c then p ∷ q ∷ qs else q ∷ insert p qs

-- `sort_by(|a, b| a.temp_c.total_cmp(&b.temp_c))`
pub sort : List CurvePoint → List CurvePoint
unfolding insert
sort [] = []
sort (p ∷ ps) = insert p (sort ps)

abbrev pub last : CurvePoint → List CurvePoint → CurvePoint
last p [] = p
last p (q ∷ qs) = last q qs

-- `a.percent + ratio * (b.percent - a.percent)`
unfoldable pub lerp : F64Ops → CurvePoint → CurvePoint → F64 → F64
lerp fl a b t =
    let ratio = fl.div (fl.sub t a.temp_c) (fl.sub b.temp_c a.temp_c) in
    fl.add a.percent (fl.mul ratio (fl.sub b.percent a.percent))

abbrev pub between : F64Ops → Interpolation → CurvePoint → CurvePoint → F64 → F64
between fl discrete a b t = a.percent
between fl smooth a b t = lerp fl a b t

-- The loop over `windows(2)`, with what stands after it.
pub scan : F64Ops → Interpolation → CurvePoint → List CurvePoint → F64 → F64
scan fl i a [] t = a.percent
scan fl i a (b ∷ bs) t =
    if ltb_F t a.temp_c || leb_F b.temp_c t then scan fl i b bs t else between fl i a b t

pub percent_sorted : F64Ops → List CurvePoint → F64 → Interpolation → Option F64
percent_sorted fl [] t i = none
percent_sorted fl (first ∷ rest) t i =
    if leb_F t first.temp_c
    then some first.percent
    else if leb_F (last first rest).temp_c t
    then some (last first rest).percent
    else some (scan fl i first rest t)

unfoldable pub percent_at : F64Ops → List CurvePoint → F64 → Interpolation → Option F64
unfolding percent_sorted scan sort
percent_at fl curve t i = percent_sorted fl (sort curve) t i

pub data CurveProblem : Type 0 where
  point_count : ℕ → CurveProblem
  not_finite : F64 → F64 → CurveProblem
  temp_out_of_range percent_out_of_range decreasing : F64 → CurveProblem

abbrev pub in_range : F64 → F64 → Bool
in_range hi x = leb_F (whole 0) x && leb_F x hi

-- The loop over the points: the first that is wrong.
pub point_problem : CurvePoint → Option CurveProblem
point_problem p =
    if not (is_finite p.temp_c) || not (is_finite p.percent)
    then some (not_finite p.temp_c p.percent)
    else if not (in_range max_curve_temp_c p.temp_c)
    then some (temp_out_of_range p.temp_c)
    else if not (in_range (whole 100) p.percent)
    then some (percent_out_of_range p.percent)
    else none

abbrev pub first_of : Option CurveProblem → Option CurveProblem → Option CurveProblem
first_of none rest = rest
first_of (some e) rest = some e

pub points_problem : List CurvePoint → Option CurveProblem
unfolding point_problem
points_problem [] = none
points_problem (p ∷ ps) = first_of (point_problem p) (points_problem ps)

-- `windows(2).find(|w| w[1].percent < w[0].percent)`
pub first_drop : CurvePoint → List CurvePoint → Option CurveProblem
first_drop a [] = none
first_drop a (b ∷ bs) =
    if ltb_F b.percent a.percent then some (decreasing b.temp_c) else first_drop b bs

pub drop_problem : List CurvePoint → Option CurveProblem
unfolding first_drop
drop_problem [] = none
drop_problem (p ∷ ps) = first_drop p ps

-- `none` is `Ok(())`.
unfoldable pub validate : List CurvePoint → Option CurveProblem
unfolding points_problem drop_problem sort
validate curve =
    if not (leb min_curve_points (length curve) && leb (length curve) max_curve_points)
    then some (point_count (length curve))
    else first_of (points_problem curve) (drop_problem (sort curve))

-- `x.clamp(lo, hi)` and `a.max(b)` of finite numbers.
abbrev pub clamp_F : F64 → F64 → F64 → F64
clamp_F lo hi x = if ltb_F x lo then lo else if ltb_F hi x then hi else x

abbrev pub max_F : F64 → F64 → F64
max_F a b = if leb_F a b then b else a

abbrev pub is_finite_point : CurvePoint → Bool
is_finite_point p = is_finite p.temp_c && is_finite p.percent

pub clamp_point : CurvePoint → CurvePoint
clamp_point p = record {
  temp_c = clamp_F (whole 0) max_curve_temp_c p.temp_c;
  percent = clamp_F (whole 0) (whole 100) p.percent;
}

-- `for point in &mut points { highest = highest.max(point.percent); point.percent = highest }`
pub raise : F64 → List CurvePoint → List CurvePoint
raise highest [] = []
raise highest (p ∷ ps) =
    let highest' = max_F highest p.percent in record p { percent = highest' } ∷ raise highest' ps

pub repaired : List CurvePoint → List CurvePoint
unfolding raise clamp_point sort
repaired curve =
    raise (whole 0) (take max_curve_points (sort (map clamp_point (keep is_finite_point curve))))

pub repair : List CurvePoint → Option (List CurvePoint)
unfolding repaired validate
repair curve = elim (validate (repaired curve)) [ none ↦ some (repaired curve) | some _ ↦ none ]
