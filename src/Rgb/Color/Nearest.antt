-- ===== src/Rgb/Color/Nearest.antt =====
-- daemon/crates/rgb/src/color.rs: the colour that three numbers are read as.
use pyren.Base.{ℕ, suc, ◌+◌, ◌-◌, ◌≤◌, ◌<◌, ℤ, pos, negsuc}
use pyren.Rgb.Color.{Rgb}

-- How far a whole number is from a natural one.
abbrev pub distance : ℤ → ℕ → ℕ
distance (pos k) n = (k - n) + (n - k)
distance (negsuc k) n = suc k + n

-- No byte is nearer to the number.
pub record IsNearest (v : ℤ) (n : ℕ) : Type 0 where
  pub byte : n < 256
  pub nearest : (m : ℕ) → m < 256 → distance v n ≤ distance v m
