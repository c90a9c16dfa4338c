-- ===== src/Power/Mode.antt =====
-- daemon/crates/power/src/lib.rs: the four power modes, and the order in which they are listed.
mod Order
use pyren.Base.{ℕ, suc, ◌+◌, ◌%◌, ◌≡◌, Bool, true, false, List, [], ◌∷◌, length, get_or, ◌==◌}

pub data PowerMode : Type 0 where
  eco balanced performance unlimited : PowerMode

abbrev pub all_modes : List PowerMode
all_modes = eco ∷ balanced ∷ performance ∷ unlimited ∷ []

-- Position in `all_modes`: `rank` of power/src/auto.rs.
abbrev pub rank : PowerMode → ℕ
rank eco = 0
rank balanced = 1
rank performance = 2
rank unlimited = 3

-- `m1 == m2`
abbrev pub same_mode : PowerMode → PowerMode → Bool
same_mode a b = rank a == rank b

-- `PowerMode::ALL[i]`, for an index in range.
abbrev pub mode_at : ℕ → PowerMode
mode_at i = get_or all_modes i unlimited

-- `PowerMode::next`
pub next : PowerMode → PowerMode
next m = mode_at ((rank m + 1) % length all_modes)
