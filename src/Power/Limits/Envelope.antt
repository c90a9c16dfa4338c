-- ===== src/Power/Limits/Envelope.antt =====
-- daemon/crates/power/src/limits.rs: the limits that reach the machine.
use pyren.Base.{ℕ, ◌≤◌, ◌≡◌, refl, arith, Option, none, some, if◌then◌else◌, or_else}
use pyren.Power.Mode.{PowerMode, eco, balanced, performance, unlimited, same_mode}
use pyren.Power.Limits.{
  Limits, clamp_one, lower, ordered, clamp_to_stock, Tuning, ModeTuning, get, set,
}

-- A limit that is commanded only where the stock one is known, and is at most that.
abbrev pub Within : Option ℕ → Option ℕ → Type 0
Within none stock = Unit {0}
Within (some v) none = ⊥
Within (some v) (some s) = v ≤ s

-- Where both are there.
abbrev pub InOrder : Option ℕ → Option ℕ → Type 0
InOrder (some a) (some b) = a ≤ b
InOrder none b = Unit {0}
InOrder (some a) none = Unit {0}

abbrev pub AtLeast : ℕ → Option ℕ → Type 0
AtLeast k none = Unit {0}
AtLeast k (some v) = k ≤ v

pub record IsEnvelope (l stock : Limits) : Type 0 where
  pub pl1_within : Within l.pl1_uw stock.pl1_uw
  pub pl2_within : Within l.pl2_uw stock.pl2_uw
  pub pl4_within : Within l.pl4_uw stock.pl4_uw
  pub pl1_pl2 : InOrder l.pl1_uw l.pl2_uw
  pub pl2_pl4 : InOrder l.pl2_uw l.pl4_uw
  pub pl1_pl4 : InOrder l.pl1_uw l.pl4_uw

clamp_one-Within : (v s : Option ℕ) → Within (clamp_one v s) s
unfolding clamp_one
clamp_one-Within none s = tt
clamp_one-Within (some v) none = tt
clamp_one-Within (some v) (some s) = ground arith

lower-Within : (a b s : Option ℕ) → Within a s → Within (lower a b) s
lower-Within none b s h = tt
lower-Within (some a) none s h = h
lower-Within (some a) (some b) none h = elim h [ ]
lower-Within (some a) (some b) (some s) h = omega arith

lower-InOrder : (a b : Option ℕ) → InOrder (lower a b) b
lower-InOrder none none = tt
lower-InOrder none (some b) = tt
lower-InOrder (some a) none = tt
lower-InOrder (some a) (some b) = omega arith

lowest-InOrder : (a b c : Option ℕ) → InOrder (lower a (or_else (lower b c) c)) (lower b c)
lowest-InOrder none b c = tt
lowest-InOrder (some a) none none = tt
lowest-InOrder (some a) none (some c) = tt
lowest-InOrder (some a) (some b) none = omega arith
lowest-InOrder (some a) (some b) (some c) = omega arith

lowest-InOrder_top : (a b c : Option ℕ) → InOrder (lower a (or_else (lower b c) c)) c
lowest-InOrder_top none b none = tt
lowest-InOrder_top none b (some c) = tt
lowest-InOrder_top (some a) none none = tt
lowest-InOrder_top (some a) none (some c) = omega arith
lowest-InOrder_top (some a) (some b) none = tt
lowest-InOrder_top (some a) (some b) (some c) = omega arith

-- Whatever is asked for, no limit that `clamp_to_stock` answers is above the machine's own, none is
-- set where the machine's own is unknown, and PL1, PL2 and PL4 are in order wherever they are there.
pub clamp_to_stock-IsEnvelope : (l stock : Limits) → IsEnvelope (clamp_to_stock l stock) stock
unfolding clamp_to_stock ordered
clamp_to_stock-IsEnvelope l stock = record {
  pl1_within =
      lower-Within pl1 (or_else (lower pl2 pl4) pl4) stock.pl1_uw
        (clamp_one-Within l.pl1_uw stock.pl1_uw);
  pl2_within = lower-Within pl2 pl4 stock.pl2_uw (clamp_one-Within l.pl2_uw stock.pl2_uw);
  pl4_within = clamp_one-Within l.pl4_uw stock.pl4_uw;
  pl1_pl2 = lowest-InOrder pl1 pl2 pl4;
  pl2_pl4 = lower-InOrder pl2 pl4;
  pl1_pl4 = lowest-InOrder_top pl1 pl2 pl4;
}
  where
    pl1 : Option ℕ
    pl1 = clamp_one l.pl1_uw stock.pl1_uw

    pl2 : Option ℕ
    pl2 = clamp_one l.pl2_uw stock.pl2_uw

    pl4 : Option ℕ
    pl4 = clamp_one l.pl4_uw stock.pl4_uw

pub record IsFloored (k : ℕ) (l : Limits) : Type 0 where
  pub pl1_floor : AtLeast k l.pl1_uw
  pub pl2_floor : AtLeast k l.pl2_uw
  pub pl4_floor : AtLeast k l.pl4_uw

clamp_one-AtLeast : (v s : Option ℕ) → AtLeast 5000000 s → AtLeast 5000000 (clamp_one v s)
unfolding clamp_one
clamp_one-AtLeast none s h = tt
clamp_one-AtLeast (some v) none h = tt
clamp_one-AtLeast (some v) (some s) h = ground arith

lower-AtLeast : (k : ℕ) (a b : Option ℕ) → AtLeast k a → AtLeast k b → AtLeast k (lower a b)
lower-AtLeast k none b h i = tt
lower-AtLeast k (some a) none h i = h
lower-AtLeast k (some a) (some b) h i = omega arith

or_else-AtLeast : (k : ℕ) (a b : Option ℕ) → AtLeast k a → AtLeast k b → AtLeast k (or_else a b)
or_else-AtLeast k none b h i = i
or_else-AtLeast k (some a) b h i = h

-- On a machine whose own limits are 5 W or more, no limit that `clamp_to_stock` answers is below
-- 5 W, whatever is asked for.
pub clamp_to_stock-IsFloored :
    (l stock : Limits) → IsFloored 5000000 stock → IsFloored 5000000 (clamp_to_stock l stock)
unfolding clamp_to_stock ordered
clamp_to_stock-IsFloored l stock f = record {
  pl1_floor = lower-AtLeast 5000000 pl1 (or_else (lower pl2 pl4) pl4) pl1_ok (
      or_else-AtLeast 5000000 (lower pl2 pl4) pl4 (lower-AtLeast 5000000 pl2 pl4 pl2_ok pl4_ok)
        pl4_ok);
  pl2_floor = lower-AtLeast 5000000 pl2 pl4 pl2_ok pl4_ok;
  pl4_floor = pl4_ok;
}
  where
    pl1 : Option ℕ
    pl1 = clamp_one l.pl1_uw stock.pl1_uw

    pl2 : Option ℕ
    pl2 = clamp_one l.pl2_uw stock.pl2_uw

    pl4 : Option ℕ
    pl4 = clamp_one l.pl4_uw stock.pl4_uw

    pl1_ok : AtLeast 5000000 pl1
    pl1_ok = clamp_one-AtLeast l.pl1_uw stock.pl1_uw f.pl1_floor

    pl2_ok : AtLeast 5000000 pl2
    pl2_ok = clamp_one-AtLeast l.pl2_uw stock.pl2_uw f.pl2_floor

    pl4_ok : AtLeast 5000000 pl4
    pl4_ok = clamp_one-AtLeast l.pl4_uw stock.pl4_uw f.pl4_floor

-- A mode's tuning, once set, is read back, and those of the other modes stay.
get-set :
    (m : ModeTuning) (a b : PowerMode) (t : Tuning)
    → get (set m a t) b ≡ (if same_mode a b then t else get m b)
unfolding get set
get-set m eco eco t = refl
get-set m eco balanced t = refl
get-set m eco performance t = refl
get-set m eco unlimited t = refl
get-set m balanced eco t = refl
get-set m balanced balanced t = refl
get-set m balanced performance t = refl
get-set m balanced unlimited t = refl
get-set m performance eco t = refl
get-set m performance balanced t = refl
get-set m performance performance t = refl
get-set m performance unlimited t = refl
get-set m unlimited eco t = refl
get-set m unlimited balanced t = refl
get-set m unlimited performance t = refl
get-set m unlimited unlimited t = refl
