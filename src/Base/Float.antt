-- ===== src/Base/Float.antt =====
-- `f64`. Every finite double is a whole multiple of 2 ^ -1074, so it is an integer counted in that
-- unit, and comparing, `min`, `max` and `clamp` are exact. The two zeros are one value. Sums,
-- products and quotients round: what needs them takes them as the record `F64Ops`.
use Prim.Native.Nat.{ℕ, suc, ◌-◌, ◌*◌, ◌^◌, ◌<◌}
use mathlib.Core.Bool.{Bool, true, false}
use native.Mathlib.Omega.{arith}
use pyren.Base.Int.{ℤ, pos, negsuc, ltb_ℤ, leb_ℤ}

pub data F64 : Type 0 where
  fin : ℤ → F64
  inf neg_inf nan : F64

-- 1.0, in units of 2 ^ -1074.
unfoldable pub unit : ℕ
unit = 2 ^ 1074

pub unit_pos : 0 < unit
unfolding unit
unit_pos = omega arith

-- A whole number as a float.
abbrev pub whole : ℕ → F64
whole n = fin (pos (n * unit))

-- `n as f64`, exact for |n| up to 2 ^ 53.
abbrev pub of_int : ℤ → F64
of_int (pos n) = whole n
of_int (negsuc n) = fin (negsuc (suc n * unit - 1))

abbrev pub is_finite : F64 → Bool
is_finite (fin _) = true
is_finite _ = false

-- `a <= b`: false as soon as one side is not a number.
abbrev pub leb_F : F64 → F64 → Bool
leb_F (fin a) (fin b) = leb_ℤ a b
leb_F nan _ = false
leb_F _ nan = false
leb_F neg_inf _ = true
leb_F _ inf = true
leb_F _ _ = false

-- `a < b`
abbrev pub ltb_F : F64 → F64 → Bool
ltb_F (fin a) (fin b) = ltb_ℤ a b
ltb_F nan _ = false
ltb_F _ nan = false
ltb_F inf _ = false
ltb_F _ neg_inf = false
ltb_F _ _ = true

-- The arithmetic of `f64`, which rounds.
pub record F64Ops : Type 0 where
  pub add : F64 → F64 → F64
  pub sub : F64 → F64 → F64
  pub mul : F64 → F64 → F64
  pub div : F64 → F64 → F64
