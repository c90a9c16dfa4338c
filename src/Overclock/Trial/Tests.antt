-- ===== src/Overclock/Trial/Tests.antt =====
-- Runs of the trial of an overclock.
use pyren.Base.{
  ℕ, ◌≡◌, refl, Bool, true, false, Option, none, some, List, [], ◌∷◌, ◌==◌, if◌then◌else◌, arith,
  lookup, insert, ◌⊎◌, inl, inr, ℤ, pos, negsuc,
}
use pyren.Overclock.Plan.{Target, Range, stock}
use pyren.Overclock.Trial.{
  GpuProbe, nvidia, ErrorKind, failed, Pending, coherent, reverting, busy, being_reverted,
  OverclockConfig, Consent, State, World, Driver, System,
}
use pyren.Overclock.Plan.Climbing.{IsClimb, Askable}
use pyren.Overclock.Trial.Card.{climb, climb_steps, write_target, write_at, verify, persist}
use pyren.Overclock.Trial.Methods.{Request, absent, whole_number, error, apply}
use pyren.Overclock.Trial.Reset.{confirm, with_phase, reset, reset_ids, reset_one}
use pyren.Overclock.Trial.Watchdog.{begin_revert, cancel, watchdog_round}
use pyren.Overclock.Trial.Start.{started, start}
use pyren.Overclock.Trial.Crash.{
  applies, confirms, booted, runs, Daemon, does, crash-restores_nothing,
}
use pyren.Overclock.Trial.Choices.{choice, Keeps}
use pyren.Overclock.Trial.Chosen.{Confirmed, does-Confirmed}
use pyren.Overclock.Trial.Rounds.{IsUndone}
use pyren.Overclock.Trial.Undone.{Wake, rounds, rounds-IsUndone}
use pyren.Overclock.Trial.Exclusive.{begin_revert-Exclusive}
use pyren.Overclock.Trial.Applied.{Ends, climb-Ends}
use pyren.Overclock.Trial.Returned.{Returns, reset-IsBack}

abbrev card : GpuProbe
card = record {
  id = "0000:01:00.0";
  vendor = nvidia;
  core_offset = some (record { min = negsuc 199; max = pos 200 });
  mem_offset = none;
  clock_lock = none;
}

-- The second call of the driver is refused.
abbrev stubborn : Driver
stubborn = record {
  write = λ n g t. if n == 2 then some failed else none;
  verify = λ n g t. none;
  can_watch = λ g. true;
  saves_at = λ n. true;
}

abbrev patient : Driver
patient = record stubborn { write = λ n g t. none }

abbrev consented : OverclockConfig
consented = record {
  consent = some (record { accepted_at = 1700000000; version = 1 });
  targets = [];
  restore_on_start = true;
  armed_gpu = none;
  hold_secs = none;
}

abbrev nothing_done : World
nothing_done = record { calls = 0; written = []; saves = 0; disk = none }

abbrev faster : Request
faster = record {
  gpu = none;
  core_offset = some (whole_number (pos 10));
  mem_offset = none;
  clock_lock = absent;
  hold = none;
}

abbrev tried_once : System
tried_once =
    (runs stubborn (booted stubborn (card ∷ []) consented nothing_done)
      (applies faster 0 ∷ [])).system

crash-restores_nothing_example :
    ((start stubborn
        (card ∷ [])
        (record consented { armed_gpu = some "0000:01:00.0"; hold_secs = some 20 })
        nothing_done).world
      ≡ nothing_done)
    × ((start stubborn
          (card ∷ [])
          (record consented { armed_gpu = some "0000:01:00.0"; hold_secs = some 20 })
          nothing_done).state.applied
        ≡ [])
    × ((start stubborn
          (card ∷ [])
          (record consented { armed_gpu = some "0000:01:00.0"; hold_secs = some 20 })
          nothing_done).state.unconfirmed_at_start
        ≡ true)
unfolding apply pyren.Overclock.Trial.Methods.prepare start
    pyren.Overclock.Trial.Start.restore_on_start pyren.Overclock.Trial.Methods.apply_prepared
    pyren.Overclock.Plan.clamp lookup climb climb_steps pyren.Overclock.Plan.ramp
    pyren.Overclock.Plan.Climbing.dist pyren.Base.◌-ℤ◌ pyren.Base.wrap write_target write_at verify
    persist pyren.Overclock.Trial.Methods.taken pyren.Base.scale pyren.Base.◌+ℤ◌ insert
    pyren.Overclock.Plan.clamp_lock pyren.Overclock.Plan.clamp_offset pyren.Overclock.Plan.clamp_to
    pyren.Overclock.Plan.climb pyren.Overclock.Plan.is_stock pyren.Overclock.Plan.step_towards
    pyren.Overclock.Trial.Methods.as_mhz pyren.Overclock.Trial.Methods.hold_from
    pyren.Overclock.Trial.Methods.hold_secs pyren.Overclock.Trial.Methods.merge
    pyren.Overclock.Trial.Methods.merge_lock pyren.Overclock.Trial.Methods.requested_gpu
    pyren.Overclock.Trial.Start.restore_all
crash-restores_nothing_example =
    crash-restores_nothing stubborn stubborn (card ∷ []) (card ∷ []) consented
      (record consented { armed_gpu = some "0000:01:00.0"; hold_secs = some 20 }) nothing_done
      nothing_done (applies faster 0 ∷ [])
      (record {
        generation = 1;
        gpu = "0000:01:00.0";
        revert_to = stock;
        deadline = 20000;
        phase = coherent;
      })
      refl refl refl

abbrev trial : Pending
trial = record {
  generation = 7;
  gpu = "0000:01:00.0";
  revert_to = stock;
  deadline = 20000;
  phase = coherent;
}

abbrev tuned : Target
tuned = record { core_offset_mhz = pos 30; mem_offset_mhz = pos 0; core_clock = none }

abbrev on_trial : System
on_trial = record {
  state = record (started consented) {
    pending = some trial;
    applied = ("0000:01:00.0", tuned) ∷ [];
    next_generation = 7;
    config = record consented { armed_gpu = some "0000:01:00.0" };
  };
  world = record { calls = 2; written = []; saves = 1; disk = none };
}

abbrev daemon : Daemon
daemon = record { system = on_trial; probe = card ∷ [] }

abbrev every_half_second : List Wake
every_half_second =
    (false, 20100)
    ∷ (false, 20600)
    ∷ (false, 21100)
    ∷ (false, 21600)
    ∷ (false, 22100)
    ∷ (false, 22600)
    ∷ (false, 23100)
    ∷ (false, 23600)
    ∷ []

-- The write at the first round, the second call, is refused, and the next one is at 23.1 s.
rounds-IsUndone_example :
    IsUndone trial card (rounds stubborn (card ∷ []) every_half_second on_trial)
rounds-IsUndone_example =
    rounds-IsUndone stubborn (card ∷ []) trial card 1 20000 500 every_half_second on_trial refl refl
      (record { on_trial = refl; ready = refl; overdue = refl }) (omega arith)
      (inr (inr (inr (inr (inr (inr (inr (inl (omega arith))))))))) refl

does-Confirmed_example :
    Keeps
      (choice "0000:01:00.0" on_trial.state)
      (choice "0000:01:00.0" (does stubborn daemon confirms).state)
    ⊎ Confirmed "0000:01:00.0" confirms on_trial.state
        (choice "0000:01:00.0" (does stubborn daemon confirms).state)
does-Confirmed_example = does-Confirmed stubborn daemon confirms "0000:01:00.0"

begin_revert-Exclusive_example :
    (begin_revert (with_phase reverting on_trial.state) trial ≡ none)
    × (confirm stubborn (record on_trial { state = with_phase reverting on_trial.state }) ≡ (
      record on_trial { state = with_phase reverting on_trial.state },
      some (error busy being_reverted),
    ))
    × (cancel stubborn
          (card ∷ [])
          20100
          (record on_trial { state = with_phase reverting on_trial.state })
        ≡ (record on_trial { state = with_phase reverting on_trial.state }, none))
    × (watchdog_round stubborn
          (card ∷ [])
          false
          20100
          (record on_trial { state = with_phase reverting on_trial.state })
        ≡ record on_trial { state = with_phase reverting on_trial.state })
unfolding begin_revert
begin_revert-Exclusive_example =
    begin_revert-Exclusive stubborn (card ∷ []) false 20100 on_trial trial trial
      (with_phase reverting on_trial.state) refl

climb-Ends_example :
    (steps : List Target) × IsClimb stock steps tuned
    × Ends stubborn card stock 0 steps [] (climb stubborn card stock tuned nothing_done)
unfolding pyren.Overclock.Plan.Climbing.dist pyren.Base.◌-ℤ◌
climb-Ends_example = climb-Ends stubborn card stock tuned nothing_done refl (record {
  core = record {
    fits_a = (omega arith, omega arith);
    fits_b = (omega arith, omega arith);
    gap = omega arith;
  };
  mem = record {
    fits_a = (omega arith, omega arith);
    fits_b = (omega arith, omega arith);
    gap = omega arith;
  };
})

reset-IsBack_example :
    Returns
      (card ∷ [])
      "0000:01:00.0"
      on_trial
      (reset patient (card ∷ []) (some "0000:01:00.0") 0 on_trial).0
unfolding reset reset_ids reset_one write_target write_at persist lookup
reset-IsBack_example = reset-IsBack patient (card ∷ []) "0000:01:00.0" 0 on_trial refl
