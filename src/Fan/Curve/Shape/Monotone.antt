-- ===== src/Fan/Curve/Shape/Monotone.antt =====
-- A valid curve of daemon/crates/fan/src/curve.rs, followed point by point, never slows the fans as
-- the heat rises.
use pyren.Base.{
  ◌≤◌, ◌≡◌, true, false, none, some, List, [], ◌∷◌, length, All, arith, F64, F64Ops, is_finite,
  is_some, leb_F, ltb_F, Bool-cases, inl, inr,
}
use pyren.Fan.Curve.Shape.{
  CurvePoint, Interpolation, discrete, sort, last, scan, percent_sorted, percent_at, points_problem,
  first_drop, drop_problem, validate,
}
use pyren.Fan.Curve.Shape.Sorting.{sort-All, IsOk, none-points_problem, length-sort}

leb_F_trans : (a b c : F64) → leb_F a b ≡ true → leb_F b c ≡ true → leb_F a c ≡ true
leb_F_trans a b c h k = ground arith

-- Temperatures that are numbers.
leb_F_total :
    (a b : F64) → is_finite a ≡ true → is_finite b ≡ true → leb_F a b ≡ false → leb_F b a ≡ true
leb_F_total a b ha hb h = ground arith

-- The speeds do not fall along the points.
abbrev Rise : CurvePoint → List CurvePoint → Type 0
Rise a [] = leb_F a.percent a.percent ≡ true
Rise a (b ∷ bs) = (leb_F a.percent b.percent ≡ true) × Rise b bs

rise_step :
    (a b : CurvePoint)
    → IsOk a
    → IsOk b
    → ltb_F b.percent a.percent ≡ false
    → leb_F a.percent b.percent ≡ true
rise_step a b oa ob h = ground arith

self_le : (a : CurvePoint) → IsOk a → leb_F a.percent a.percent ≡ true
self_le a o = ground arith

first_drop-Rise :
    (a : CurvePoint) (bs : List CurvePoint) → All IsOk (a ∷ bs) → first_drop a bs ≡ none → Rise a bs
unfolding first_drop
first_drop-Rise a [] o h = self_le a o.0
first_drop-Rise a (b ∷ bs) o h =
    (rise_step a b o.0 (o.1).0 (ground arith), first_drop-Rise b bs o.1 (ground arith))

Rise-self : (a : CurvePoint) (bs : List CurvePoint) → Rise a bs → leb_F a.percent a.percent ≡ true
Rise-self a [] r = r
Rise-self a (b ∷ bs) r = ground arith

module _ (fl : F64Ops) where
  scan-lower :
      (a : CurvePoint) (bs : List CurvePoint) (t : F64)
      → Rise a bs
      → leb_F a.percent (scan fl discrete a bs t) ≡ true
  unfolding scan
  scan-lower a [] t r = r
  scan-lower a (b ∷ bs) t r = ground (
    arith,
    Rise-self a (b ∷ bs) r,
    leb_F_trans a.percent b.percent (scan fl discrete b bs t) r.0,
    scan-lower b bs t r.1,
  )

  last-lower :
      (a : CurvePoint) (bs : List CurvePoint)
      → Rise a bs
      → leb_F a.percent (last a bs).percent ≡ true
  last-lower a [] r = r
  last-lower a (b ∷ bs) r =
      leb_F_trans a.percent b.percent (last b bs).percent r.0 (last-lower b bs r.1)

  scan-upper :
      (a : CurvePoint) (bs : List CurvePoint) (t : F64)
      → Rise a bs
      → leb_F (scan fl discrete a bs t) (last a bs).percent ≡ true
  unfolding scan
  scan-upper a [] t r = r
  scan-upper a (b ∷ bs) t r = ground (arith, last-lower a (b ∷ bs) r, scan-upper b bs t r.1)

  le_through : (x t u : F64) → leb_F t u ≡ true → leb_F x t ≡ true → leb_F x u ≡ true
  le_through x t u h k = leb_F_trans x t u k h

  not_under : (x t : F64) → leb_F x t ≡ true → ltb_F t x ≡ false
  not_under x t h = ground arith

  scan_past :
      (a b : CurvePoint) (bs : List CurvePoint) (t : F64)
      → leb_F b.temp_c t ≡ true
      → scan fl discrete a (b ∷ bs) t ≡ scan fl discrete b bs t
  unfolding scan
  scan_past a b bs t h = ground arith

  scan_short :
      (a b : CurvePoint) (bs : List CurvePoint) (t : F64)
      → leb_F a.temp_c t ≡ true
      → leb_F b.temp_c t ≡ false
      → scan fl discrete a (b ∷ bs) t ≡ a.percent
  unfolding scan
  scan_short a b bs t k h = ground (arith, not_under a.temp_c t k)

  scan_nil :
      (a : CurvePoint) (t u : F64)
      → leb_F a.percent a.percent ≡ true
      → leb_F (scan fl discrete a [] t) (scan fl discrete a [] u) ≡ true
  unfolding scan
  scan_nil a t u h = h

  last_self :
      (a : CurvePoint) (bs : List CurvePoint)
      → Rise a bs
      → leb_F (last a bs).percent (last a bs).percent ≡ true
  last_self a [] r = r
  last_self a (b ∷ bs) r = last_self b bs r.1

  scan_mono :
      (a : CurvePoint) (bs : List CurvePoint) (t u : F64)
      → Rise a bs
      → leb_F t u ≡ true
      → leb_F a.temp_c t ≡ true
      → leb_F (scan fl discrete a bs t) (scan fl discrete a bs u) ≡ true
  scan_mono a [] t u r h k = scan_nil a t u r
  scan_mono a (b ∷ bs) t u r h k = elim (Bool-cases (leb_F b.temp_c t)) [
    | inl past ↦
        rw (scan_past a b bs t past, scan_past a b bs u (le_through b.temp_c t u h past))
          (scan_mono b bs t u r.1 h past)
    | inr short ↦ rw (scan_short a b bs t k short) (scan-lower a (b ∷ bs) u r)
  ]

  -- The speed at `t` and the one at `u`, for sorted points.
  sorted_mono :
      (a : CurvePoint) (bs : List CurvePoint) (t u p q : F64)
      → is_finite a.temp_c ≡ true
      → is_finite t ≡ true
      → Rise a bs
      → leb_F t u ≡ true
      → percent_sorted fl (a ∷ bs) t discrete ≡ some p
      → percent_sorted fl (a ∷ bs) u discrete ≡ some q
      → leb_F p q ≡ true
  unfolding percent_sorted
  sorted_mono a bs t u p q fa ft r h e f = ground (
    arith,
    Rise-self a bs r,
    leb_F_trans t u a.temp_c h,
    leb_F_trans (last a bs).temp_c t u,
    leb_F_total t a.temp_c ft fa,
    last-lower a bs r,
    last_self a bs r,
    scan-lower a bs u r,
    scan-upper a bs t r,
    scan_mono a bs t u r h,
  )

  -- The points of a curve that is ready to be read.
  abbrev Ready : List CurvePoint → Type 0
  Ready [] = Unit {0}
  Ready (a ∷ bs) = (is_finite a.temp_c ≡ true) × Rise a bs

  IsOk-finite : (a : CurvePoint) → IsOk a → is_finite a.temp_c ≡ true
  IsOk-finite a o = ground arith

  ready : (ps : List CurvePoint) → All IsOk ps → drop_problem ps ≡ none → Ready ps
  unfolding drop_problem
  ready [] o h = tt
  ready (a ∷ bs) o h = (IsOk-finite a o.0, first_drop-Rise a bs o h)

  Ready-percent_sorted :
      (ps : List CurvePoint) (t u p q : F64)
      → Ready ps
      → is_finite t ≡ true
      → leb_F t u ≡ true
      → percent_sorted fl ps t discrete ≡ some p
      → percent_sorted fl ps u discrete ≡ some q
      → leb_F p q ≡ true
  unfolding percent_sorted
  Ready-percent_sorted [] t u p q r ft h e f = absurd (cc)
  Ready-percent_sorted (a ∷ bs) t u p q r ft h e f = sorted_mono a bs t u p q r.0 ft r.1 h e f

  validate-parts :
      (c : List CurvePoint)
      → validate c ≡ none
      → (points_problem c ≡ none) × (drop_problem (sort c) ≡ none)
  unfolding validate
  validate-parts c v = ground arith

  valid-Ready : (c : List CurvePoint) → validate c ≡ none → Ready (sort c)
  valid-Ready c v =
      ready (sort c) (sort-All IsOk c (none-points_problem c (validate-parts c v).0))
        (validate-parts c v).1

  -- A curve that `validate` accepts, followed point by point (`discrete`), never answers a lower
  -- speed at a temperature than at a finite one that is no higher.
  pub percent_at_mono :
      (c : List CurvePoint) (t u p q : F64)
      → validate c ≡ none
      → is_finite t ≡ true
      → leb_F t u ≡ true
      → percent_at fl c t discrete ≡ some p
      → percent_at fl c u discrete ≡ some q
      → leb_F p q ≡ true
  unfolding percent_at
  percent_at_mono c t u p q v ft h e f =
      Ready-percent_sorted (sort c) t u p q (valid-Ready c v) ft h e f

  valid-answers :
      (ps : List CurvePoint) (t : F64) (i : Interpolation)
      → 1 ≤ length ps
      → is_some (percent_sorted fl ps t i) ≡ true
  unfolding percent_sorted
  valid-answers [] t i h = absurd (omega arith)
  valid-answers (a ∷ bs) t i h = ground arith

  valid-length : (c : List CurvePoint) → validate c ≡ none → 1 ≤ length (sort c)
  unfolding validate
  valid-length c v = ground (arith, length-sort c)

  -- A curve that `validate` accepts answers a speed at every temperature, in both ways of reading.
  pub percent_at-total :
      (c : List CurvePoint) (t : F64) (i : Interpolation)
      → validate c ≡ none
      → is_some (percent_at fl c t i) ≡ true
  unfolding percent_at
  percent_at-total c t i v = valid-answers (sort c) t i (valid-length c v)
