-- ===== src/Fan/Stall/Tests.antt =====
-- Runs of the stall watch on concrete readings, as in the tests of daemon/crates/fan/src/stall.rs.
use pyren.Base.{
  Spaced, ℕ, ◌≡◌, ◌≢◌, refl, true, List, [], ◌∷◌, none, some, arith, pos, ◌+ℤ◌, ◌-ℤ◌, scale,
}
use pyren.Fan.Stall.{
  StallWatch, fault, fresh, prune, stalled, kicked, cooling, count_fault, observe, Turn, watched,
  unwatched, turn, raises, idle, note_raised,
}
use pyren.Fan.Stall.Window.{Inv, observe-Inv, fresh-Inv}
use pyren.Fan.Stall.Raises.{fresh-raises-Spaced}
use pyren.Fan.Stall.Third.{stalls, third_stall-raises}

-- 700 rpm is asked for.
abbrev stall_at : ℕ → Turn
stall_at now = watched now (pos 700) (pos 0) true

abbrev burst : List Turn
burst =
    stall_at 0
    ∷ stall_at 2
    ∷ stall_at 4
    ∷ unwatched 5
    ∷ stall_at 6
    ∷ stall_at 8
    ∷ stall_at 10
    ∷ stall_at 310
    ∷ stall_at 312
    ∷ stall_at 314
    ∷ []

burst-raises : raises fresh burst ≡ 4 ∷ 314 ∷ []
unfolding raises turn observe count_fault cooling stalled kicked prune idle note_raised scale ◌+ℤ◌
    ◌-ℤ◌
burst-raises = refl

-- A jump from 700 to 1600 rpm is a kick.
kick_is_a_fault :
    (observe (record fresh { last_rpm = some (pos 700) }) 2 (pos 700) (pos 1600) true).1 ≡ fault 1
unfolding observe count_fault cooling stalled kicked prune scale ◌+ℤ◌ ◌-ℤ◌
kick_is_a_fault = refl

abbrev two_faults : StallWatch
two_faults = record { faults = 10 ∷ 60 ∷ []; last_rpm = some (pos 0); last_raise = some 5 }

two_faults-Inv : Inv 60 two_faults
two_faults-Inv = record {
  bounded = omega arith;
  ordered = omega arith;
  raised = λ r e. ground arith;
}

observe-Inv_example : Inv 400 (observe two_faults 400 (pos 700) (pos 0) true).0
observe-Inv_example =
    observe-Inv two_faults 60 400 (pos 700) (pos 0) true (omega arith) two_faults-Inv

third_stall-raises_example : raises fresh burst ≢ []
unfolding stalled scale stalls
third_stall-raises_example =
    third_stall-raises fresh 0 burst (fresh-Inv 0) refl (omega arith) (omega arith) (omega arith)

fresh-raises-Spaced_example : Spaced 300 none (raises fresh burst)
fresh-raises-Spaced_example = fresh-raises-Spaced burst (omega arith)

-- The fan turns at 690 rpm, then is not watched, then at 720.
abbrev steady_run : List Turn
steady_run =
    watched 400 (pos 700) (pos 690) true ∷ unwatched 402 ∷ watched 404 (pos 700) (pos 720) true ∷ []
