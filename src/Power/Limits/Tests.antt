-- ===== src/Power/Limits/Tests.antt =====
-- Limits of a laptop with 77 W and 110 W, as in the tests of daemon/crates/power/src/limits.rs.
use pyren.Base.{◌≡◌, refl, none, some, true, arith}
use pyren.Power.Limits.{Limits, Tuning, clamp_to_stock, target}
use pyren.Power.Limits.Envelope.{
  IsEnvelope, clamp_to_stock-IsEnvelope, IsFloored, clamp_to_stock-IsFloored,
}

abbrev stock : Limits
stock = record { pl1_uw = some 77000000; pl2_uw = some 110000000; pl4_uw = none }

-- PL1 above PL2, and far too high.
abbrev asked : Limits
asked = record { pl1_uw = some 900000000; pl2_uw = some 50000000; pl4_uw = some 1 }

asked_lowered :
    clamp_to_stock asked stock
    ≡ record { pl1_uw = some 50000000; pl2_uw = some 50000000; pl4_uw = none }
unfolding clamp_to_stock
asked_lowered = refl

abbrev half : Tuning
half = record { pl1_percent = 50; pl2_percent = 100; turbo = true }

half_target :
    target half stock ≡ record { pl1_uw = some 38500000; pl2_uw = some 110000000; pl4_uw = none }
unfolding target
half_target = refl

clamp_to_stock-IsEnvelope_example : IsEnvelope (clamp_to_stock asked stock) stock
clamp_to_stock-IsEnvelope_example = clamp_to_stock-IsEnvelope asked stock

clamp_to_stock-IsFloored_example : IsFloored 5000000 (clamp_to_stock asked stock)
clamp_to_stock-IsFloored_example =
    clamp_to_stock-IsFloored asked stock
      (record { pl1_floor = omega arith; pl2_floor = omega arith; pl4_floor = tt })
