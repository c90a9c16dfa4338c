-- ===== src/Power/Mode/Order.antt =====
-- The order of the power modes.
use pyren.Base.{◌≡◌, refl, get_elem?, some}
use pyren.Power.Mode.{PowerMode, eco, balanced, performance, unlimited, rank, all_modes, next}

-- `rank` is the position in the list.
rank_lem : (m : PowerMode) → get_elem? all_modes (rank m) ≡ some m
rank_lem eco = refl
rank_lem balanced = refl
rank_lem performance = refl
rank_lem unlimited = refl

-- Four presses of the key come back to the mode that they started from.
next_four : (m : PowerMode) → next (next (next (next m))) ≡ m
unfolding next
next_four eco = refl
next_four balanced = refl
next_four performance = refl
next_four unlimited = refl
