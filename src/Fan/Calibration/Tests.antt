-- ===== src/Fan/Calibration/Tests.antt =====
-- Runs of a few samples, as in the tests of daemon/crates/fan/src/calibration.rs.
use pyren.Base.{ℕ, refl, false, List, [], ◌∷◌, pos, arith}
use pyren.Fan.Calibration.{Sample, new, push, finish}
use pyren.Fan.Calibration.Verdicts.{IsCeiling, finish-IsCeiling}

abbrev sample : ℕ → ℕ → Sample
sample t rpm = record { at_secs = t; fan1_rpm = pos rpm; fan2_rpm = pos 900; is_reverse = false }

abbrev up : List Sample
up = sample 1 2600 ∷ sample 2 5100 ∷ sample 3 5000 ∷ []

finish-IsCeiling_example : IsCeiling (pos 5100) (pos 2000) false up
unfolding new push finish pyren.Base.◌-ℤ◌ pyren.Base.wrap
finish-IsCeiling_example =
    finish-IsCeiling (pos 2000) false 30 12 up (pos 5100) (omega arith, omega arith) refl

abbrev down : List Sample
down = sample 1 3600 ∷ sample 2 1700 ∷ sample 3 1800 ∷ []
