-- ===== src/Power/Limits.antt =====
-- daemon/crates/power/src/limits.rs: the package power limits, in microwatts, and the share of them
-- that each mode asks for.
pub mod Envelope
mod Tests
use pyren.Base.{
  ℕ, ◌*◌, ◌/◌, min, Bool, true, false, not, ◌&&◌, Option, none, some, ltb, leb, ◌==◌, if◌then◌else◌,
  is_some, filter_opt, or_else, map_opt, same,
}
use pyren.Power.Mode.{PowerMode, eco, balanced, performance, unlimited}

abbrev pub floor_uw : ℕ
floor_uw = 5000000

abbrev pub max_sane_uw : ℕ
max_sane_uw = 500000000

-- `none` is a limit that the machine does not have.
pub record Limits : Type 0 where
  pub pl1_uw : Option ℕ
  pub pl2_uw : Option ℕ
  pub pl4_uw : Option ℕ

unfoldable pub is_empty : Limits → Bool
is_empty l = not (is_some l.pl1_uw) && not (is_some l.pl2_uw) && not (is_some l.pl4_uw)

-- `value.clamp(FLOOR_UW.min(stock), stock)`
abbrev pub clamp_uw : ℕ → ℕ → ℕ
clamp_uw value stock =
    if ltb value (min floor_uw stock)
    then min floor_uw stock
    else if ltb stock value
    then stock
    else value

pub clamp_one : Option ℕ → Option ℕ → Option ℕ
clamp_one none stock = none
clamp_one (some value) none = none
clamp_one (some value) (some stock) = some (clamp_uw value stock)

-- A limit, lowered to a ceiling where both are there.
abbrev pub lower : Option ℕ → Option ℕ → Option ℕ
lower (some a) (some b) = some (min a b)
lower none b = none
lower (some a) none = some a

unfoldable pub ordered : Limits → Limits
ordered l =
    let pl2 = lower l.pl2_uw l.pl4_uw in
    record l { pl1_uw = lower l.pl1_uw (or_else pl2 l.pl4_uw); pl2_uw = pl2 }

pub clamp_to_stock : Limits → Limits → Limits
unfolding clamp_one ordered
clamp_to_stock l stock = ordered (record {
  pl1_uw = clamp_one l.pl1_uw stock.pl1_uw;
  pl2_uw = clamp_one l.pl2_uw stock.pl2_uw;
  pl4_uw = clamp_one l.pl4_uw stock.pl4_uw;
})

abbrev pub sane : Option ℕ → Option ℕ
sane v = filter_opt (λ x. leb 1000000 x && leb x max_sane_uw) v

unfoldable pub without_absurd : Limits → Limits
without_absurd l = record { pl1_uw = sane l.pl1_uw; pl2_uw = sane l.pl2_uw; pl4_uw = sane l.pl4_uw }

pub record Tuning : Type 0 where
  pub pl1_percent : ℕ
  pub pl2_percent : ℕ
  pub turbo : Bool

pub default_for : PowerMode → Tuning
default_for mode = record { pl1_percent = 100; pl2_percent = 100; turbo = true }

pub is_default : Tuning → Bool
unfolding default_for
is_default t =
    t.pl1_percent == (default_for balanced).pl1_percent
    && t.pl2_percent == (default_for balanced).pl2_percent
    && same t.turbo (default_for balanced).turbo

abbrev pub share : Option ℕ → ℕ → Option ℕ
share stock percent = map_opt (λ s. s / 100 * percent) stock

unfoldable pub target : Tuning → Limits → Limits
target t stock = record {
  pl1_uw = share stock.pl1_uw t.pl1_percent;
  pl2_uw = share stock.pl2_uw t.pl2_percent;
  pl4_uw = stock.pl4_uw;
}

pub record ModeTuning : Type 0 where
  pub eco : Tuning
  pub balanced : Tuning
  pub performance : Tuning
  pub unlimited : Tuning

abbrev pub default_tuning : ModeTuning
default_tuning = record {
  eco = default_for eco;
  balanced = default_for balanced;
  performance = default_for performance;
  unlimited = default_for unlimited;
}

pub get : ModeTuning → PowerMode → Tuning
get m eco = m.eco
get m balanced = m.balanced
get m performance = m.performance
get m unlimited = m.unlimited

pub set : ModeTuning → PowerMode → Tuning → ModeTuning
set m eco t = record m { eco = t }
set m balanced t = record m { balanced = t }
set m performance t = record m { performance = t }
set m unlimited t = record m { unlimited = t }
