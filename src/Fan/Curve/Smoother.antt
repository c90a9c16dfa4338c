-- ===== src/Fan/Curve/Smoother.antt =====
-- daemon/crates/fan/src/curve.rs: `TempSmoother`, the moving average of the temperatures.
use mathlib.Core.List.{append-nil, append_assoc}
use pyren.Base.{
  ℕ, zero, suc, ◌+◌, ◌-◌, ◌/◌, ◌≤◌, ◌<◌, ◌≡◌, refl, max, Bool, true, false, ◌&&◌, List, [], ◌∷◌,
  ◌++◌, ltb, if◌then◌else◌, length, length-append, length-drop, ap, sym, ◌∙◌, drop, dec_lt,
  replicate, length-replicate, arith, F64, F64Ops, pos, ltb_F, whole, of_int,
}

-- `a.min(b)`, which ignores a NaN.
abbrev pub min_F : F64 → F64 → F64
min_F a b = if ltb_F a b then a else b

pub record TempSmoother : Type 0 where
  pub window : ℕ
  pub samples : List F64
  pub warm_up : Bool

abbrev pub warm_up_skip_c : F64
warm_up_skip_c = whole 80

abbrev pub warm_up_seed_max_c : F64
warm_up_seed_max_c = whole 45

unfoldable pub new : ℕ → TempSmoother
new window = record { window = max window 1; samples = []; warm_up = false }

pub warming_up : ℕ → TempSmoother
unfolding new
warming_up window = record (new window) { warm_up = true }

abbrev pub sum : F64Ops → F64 → List F64 → F64
sum fl acc [] = acc
sum fl acc (x ∷ xs) = sum fl (fl.add acc x) xs

abbrev pub mean : F64Ops → List F64 → F64
mean fl xs = fl.div (sum fl (whole 0) xs) (of_int (pos (length xs)))

-- What `std::mem::take(&mut self.warm_up)` leaves the samples at.
pub seeded : TempSmoother → F64 → List F64
seeded s t =
    if s.warm_up && ltb_F t warm_up_skip_c
    then replicate (s.window / 2) (min_F t warm_up_seed_max_c)
    else s.samples

-- `samples.push(t)`, then `samples.remove(0)` when there are too many.
pub slide : ℕ → List F64 → F64 → List F64
slide window xs t = let ys = xs ++ (t ∷ []) in if ltb window (length ys) then drop 1 ys else ys

pub pushed : TempSmoother → F64 → TempSmoother
unfolding seeded slide
pushed s t = record s { samples = slide s.window (seeded s t) t; warm_up = false }

-- `push` with its answer.
unfoldable pub push : F64Ops → TempSmoother → F64 → TempSmoother × F64
unfolding pushed
push fl s t = (pushed s t, mean fl (pushed s t).samples)

unfoldable pub is_empty : TempSmoother → Bool
is_empty s = elim s.samples [ [] ↦ true | _ ∷ _ ↦ false ]

abbrev pub pushes : F64Ops → TempSmoother → List F64 → TempSmoother
pushes fl s [] = s
pushes fl s (t ∷ ts) = pushes fl (push fl s t).0 ts

-- The last `n` of a list.
abbrev pub latest : ℕ → List F64 → List F64
latest n xs = drop (length xs - n) xs

drop-append : (n : ℕ) (xs ys : List F64) → n ≤ length xs → drop n (xs ++ ys) ≡ drop n xs ++ ys
drop-append zero xs ys h = refl
drop-append (suc n) [] ys h = absurd (omega arith)
drop-append (suc n) (x ∷ xs) ys h = drop-append n xs ys (omega arith)

drop-nil : (n : ℕ) → drop {A = F64} n [] ≡ []
drop-nil zero = refl
drop-nil (suc n) = refl

dropped_same : {m n : ℕ} (xs : List F64) → m ≡ n → drop m xs ≡ drop n xs
dropped_same xs e = ap (λ k. drop k xs) e

drop-drop : (m n k : ℕ) (xs : List F64) → n + m ≡ k → drop m (drop n xs) ≡ drop k xs
drop-drop m zero k xs e = dropped_same xs (omega arith)
drop-drop m (suc n) k [] e = drop-nil m ∙ sym (drop-nil k)
drop-drop m (suc n) zero (x ∷ xs) e = absurd (omega arith)
drop-drop m (suc n) (suc k) (x ∷ xs) e = drop-drop m n k xs (omega arith)

slide_short : (w : ℕ) (xs : List F64) (t : F64) → length xs < w → slide w xs t ≡ xs ++ (t ∷ [])
unfolding slide
slide_short w xs t h = ground (arith, length-append xs (t ∷ []))

slide_full :
    (w : ℕ) (xs : List F64) (t : F64) → w ≤ length xs → slide w xs t ≡ drop 1 (xs ++ (t ∷ []))
unfolding slide
slide_full w xs t h = ground (arith, length-append xs (t ∷ []))

latest_short : (w : ℕ) (xs : List F64) → length xs ≤ w → latest w xs ≡ xs
latest_short w xs h = dropped_same {n = 0} xs (omega arith)

slide-latest_short :
    (w : ℕ) (xs : List F64) (t : F64)
    → length xs < w
    → slide w (latest w xs) t ≡ latest w (xs ++ (t ∷ []))
slide-latest_short w xs t h =
    ap (λ ys. slide w ys t) (latest_short w xs (omega arith))
    ∙ slide_short w xs t h
    ∙ sym (latest_short w (xs ++ (t ∷ [])) (omega (arith, length-append xs (t ∷ []))))

slide-latest_full :
    (w : ℕ) (xs : List F64) (t : F64)
    → w ≤ length xs
    → slide w (latest w xs) t ≡ latest w (xs ++ (t ∷ []))
slide-latest_full w xs t h =
    slide_full w (latest w xs) t (omega (arith, length-drop (length xs - w) xs))
    ∙ ap (drop 1) (sym (drop-append (length xs - w) xs (t ∷ []) (omega arith)))
    ∙ drop-drop 1 (length xs - w) (length (xs ++ (t ∷ [])) - w) (xs ++ (t ∷ []))
        (omega (arith, length-append xs (t ∷ [])))

slide-latest :
    (w : ℕ) (xs : List F64) (t : F64) → slide w (latest w xs) t ≡ latest w (xs ++ (t ∷ []))
slide-latest w xs t = elim (dec_lt (length xs) w) [
  | yes lt ↦ slide-latest_short w xs t lt
  | no ge ↦ slide-latest_full w xs t (omega arith)
]

-- A smoother past its warm-up whose samples are the last readings of a history.
record Follows (s : TempSmoother) (history : List F64) : Type 0 where
  samples_ok : s.samples ≡ latest s.window history
  warm_ok : s.warm_up ≡ false

pushed-Follows :
    (s : TempSmoother) (history : List F64) (t : F64)
    → Follows s history
    → Follows (pushed s t) (history ++ (t ∷ []))
unfolding pushed seeded
pushed-Follows s history t f = record {
  samples_ok = rw (f.warm_ok, f.samples_ok) (slide-latest s.window history t);
  warm_ok = refl;
}

pushes-samples :
    (fl : F64Ops) (s : TempSmoother) (history ts : List F64)
    → Follows s history
    → (pushes fl s ts).samples ≡ latest s.window (history ++ ts)
unfolding push pushed
pushes-samples fl s history [] f = f.samples_ok ∙ ap (latest s.window) (sym (append-nil history))
pushes-samples fl s history (t ∷ ts) f =
    pushes-samples fl (pushed s t) (history ++ (t ∷ [])) ts (pushed-Follows s history t f)
    ∙ ap (latest s.window) (append_assoc history (t ∷ []) ts)

-- A new smoother holds the last `window` readings, all of them while there are fewer; a window of 0
-- counts as 1.
pub new-samples :
    (fl : F64Ops) (window : ℕ) (ts : List F64)
    → (pushes fl (new window) ts).samples ≡ latest (max window 1) ts
unfolding new
new-samples fl window ts =
    pushes-samples fl (new window) [] ts
      (record { samples_ok = sym (drop-nil (0 - max window 1)); warm_ok = refl })

-- A smoother that warms up and first reads less than 80 °C holds the last `window` of a history
-- that starts with half a window of that reading, or of 45 °C if that is less.
pub warming_up-samples :
    (fl : F64Ops) (window : ℕ) (t : F64) (ts : List F64)
    → ltb_F t warm_up_skip_c ≡ true
    → (pushes fl (warming_up window) (t ∷ ts)).samples
      ≡ latest
          (max window 1)
          (replicate (max window 1 / 2) (min_F t warm_up_seed_max_c) ++ (t ∷ ts))
unfolding new warming_up push pushed seeded
warming_up-samples fl window t ts h =
    pushes-samples fl (pushed (warming_up window) t) (seed ++ (t ∷ [])) ts (record {
      samples_ok = rw h (
          ap (λ xs. slide (max window 1) xs t) (sym (latest_short (max window 1) seed seed_fits))
          ∙ slide-latest (max window 1) seed t);
      warm_ok = refl;
    })
    ∙ ap (latest (max window 1)) (append_assoc seed (t ∷ []) ts)
  where
    seed : List F64
    seed = replicate (max window 1 / 2) (min_F t warm_up_seed_max_c)

    seed_fits : length seed ≤ max window 1
    seed_fits = omega (arith, length-replicate (max window 1 / 2) (min_F t warm_up_seed_max_c))
