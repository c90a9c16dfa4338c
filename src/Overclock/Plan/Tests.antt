-- ===== src/Overclock/Plan/Tests.antt =====
-- Requests and ramps of the card in the tests of daemon/crates/overclock/src/plan.rs.
use pyren.Base.{◌≡◌, ◌-ℤ◌, ◌-ℤ◌, refl, arith, none, some, List, pos, negsuc}
use pyren.Overclock.Plan.{ClockLock, Target, Ceiling, stock, clamp, ramp}
use pyren.Overclock.Plan.Clamping.{Takes, TakesLock, clamp_within}
use pyren.Overclock.Plan.Climbing.{dist, IsClimb, ramp-IsClimb}

abbrev card : Ceiling
card = record {
  core_offset = some (record { min = negsuc 999; max = pos 1000 });
  mem_offset = some (record { min = negsuc 1999; max = pos 6000 });
  clock = some (record { min = pos 210; max = pos 3090 });
}

-- Upside down, and within what the card takes.
abbrev upside_down : ClockLock
upside_down = record { min_mhz = pos 2000; max_mhz = pos 1500 }

abbrev request : Target
request = record {
  core_offset_mhz = pos 1500;
  mem_offset_mhz = pos 120;
  core_clock = some upside_down;
}

upside_down_raised :
    (clamp request card).target.core_clock
    ≡ some (record { min_mhz = pos 2000; max_mhz = pos 2000 })
unfolding clamp
upside_down_raised = refl

clamp_within_example :
    Takes card.core_offset (clamp request card).target.core_offset_mhz
    × Takes card.mem_offset (clamp request card).target.mem_offset_mhz
    × TakesLock card.clock (clamp request card).target.core_clock
clamp_within_example = clamp_within request card (omega arith) (omega arith) (omega arith)

abbrev wanted : Target
wanted = record { core_offset_mhz = pos 40; mem_offset_mhz = pos 120; core_clock = none }

ramp-IsClimb_example :
    (steps : List Target) × (ramp 200 stock wanted ≡ some steps) × IsClimb stock steps wanted
unfolding dist ◌-ℤ◌
ramp-IsClimb_example =
    ramp-IsClimb stock wanted 200
      (record {
        core = record {
          fits_a = (omega arith, omega arith);
          fits_b = (omega arith, omega arith);
          gap = omega arith;
        };
        mem = record {
          fits_a = (omega arith, omega arith);
          fits_b = (omega arith, omega arith);
          gap = omega arith;
        };
      })
      (omega arith)
