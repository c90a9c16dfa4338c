-- ===== src/Fan/Curve/Tests.antt =====
-- The curve, the floor and the smoother on concrete values, as in the tests of
-- daemon/crates/fan/src/curve.rs.
use pyren.Base.{
  ℕ, ◌≡◌, ◌↔◌, refl, true, false, [], ◌∷◌, List, none, some, pos, arith, ◌+◌, ◌<◌, ◌*◌, F64Ops, nan,
  whole, unit, is_some, leb_F,
}
use pyren.Fan.Curve.Shape.{CurvePoint, smooth, percent_at, validate, repair, repaired}
use pyren.Fan.Curve.Shape.Repair.{repair-valid, repair_too_short}
use pyren.Fan.Curve.Shape.Monotone.{percent_at_mono, percent_at-total}
use pyren.Fan.Curve.Floor
use pyren.Fan.Curve.Floor.{stop_below_pwm, Write, Hysteresis}
use pyren.Fan.Curve.Floor.Bands.{stop_below_pwm_iff, release_run-InBand, tick-Stands, tick-Within}
use pyren.Fan.Curve.Smoother
use pyren.Fan.Curve.Smoother.{new-samples, warming_up-samples}

abbrev point : ℕ → ℕ → CurvePoint
point t p = record { temp_c = whole t; percent = whole p }

abbrev two : List CurvePoint
two = point 50 20 ∷ point 80 60 ∷ []

-- Every operation answers its left side.
abbrev ops : F64Ops
ops = record { add = λ a b. a; sub = λ a b. a; mul = λ a b. a; div = λ a b. a }

two_valid : validate two ≡ none
unfolding validate unit
two_valid = refl

percent_at_mono_example : leb_F (whole 20) (whole 60) ≡ true
unfolding percent_at unit
percent_at_mono_example =
    percent_at_mono ops two (whole 40) (whole 90) (whole 20) (whole 60) two_valid refl refl refl
      refl

percent_at-total_example : is_some (percent_at ops two (whole 65) smooth) ≡ true
percent_at-total_example = percent_at-total ops two (whole 65) smooth two_valid

-- Out of order, falling, and with a point that is not a number.
abbrev bad : List CurvePoint
bad = point 80 20 ∷ record { temp_c = nan; percent = whole 5 } ∷ point 50 60 ∷ []

repair-valid_example : (repair bad ≡ some (repaired bad)) × (validate (repaired bad) ≡ none)
repair-valid_example = repair-valid bad (omega arith)

repair_too_short_example : repair (point 80 20 ∷ []) ≡ none
repair_too_short_example = repair_too_short (point 80 20 ∷ []) (omega arith)

-- Board 8D2F: the floor is 1800 rpm and the maximum 5800.
stop_below_pwm_iff_example :
    (79 < stop_below_pwm (some (pos 1800)) (some (pos 5800))) ↔ (79 * 5800 < 1800 * 255)
stop_below_pwm_iff_example =
    stop_below_pwm_iff 79 1800 5800 (omega arith) (omega arith) (omega arith) (omega arith)
      (omega arith)

release_run-InBand_example : Floor.Bands.release_run 80 false (80 ∷ 87 ∷ 82 ∷ []) ≡ false
release_run-InBand_example =
    release_run-InBand 80 false (80 ∷ 87 ∷ 82 ∷ []) (omega arith)
      ((omega arith, omega arith), ((omega arith, omega arith), ((omega arith, omega arith), tt)))

abbrev written : Hysteresis
written = record { last = some (record { pwm = 100; at = 5 }) }

tick-Stands_example :
    Floor.Bands.Stands
      (Floor.Bands.tick written 120 (some (pos 2000)) (some (pos 5800)) 30)
      120
      (some (pos 2000))
      (some (pos 5800))
      30
tick-Stands_example = tick-Stands written 120 (some (pos 2000)) (some (pos 5800)) 30

tick-Within_example :
    (w : Write) × ((Floor.Bands.tick written 104 none none 30).last ≡ some w)
    × (30 < w.at + 60)
    × Floor.Bands.Within 8 104 w.pwm
tick-Within_example = tick-Within written 104 none 30

new-samples_example :
    (Smoother.pushes ops (Smoother.new 2) (whole 40 ∷ whole 50 ∷ whole 60 ∷ [])).samples
    ≡ whole 50 ∷ whole 60 ∷ []
new-samples_example = new-samples ops 2 (whole 40 ∷ whole 50 ∷ whole 60 ∷ [])

warming_up-samples_example :
    (Smoother.pushes ops (Smoother.warming_up 4) (whole 70 ∷ whole 50 ∷ [])).samples
    ≡ whole 45 ∷ whole 45 ∷ whole 70 ∷ whole 50 ∷ []
unfolding unit
warming_up-samples_example = warming_up-samples ops 4 (whole 70) (whole 50 ∷ []) refl
