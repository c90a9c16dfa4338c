-- ===== src/Fan/Tick/Stalls.antt =====
-- daemon/crates/fan/src/lib.rs: the stall watch of a pass, with the raise of Pyren's floor.
use pyren.Base.{
  ℕ, Bool, false, not, ◌&&◌, Option, none, some, List, [], ◌∷◌, ℤ, pos, leb, ltb_ℤ, leb_ℤ, ◌+ℤ◌,
  scale, quot, wrap_i64, if◌then◌else◌, is_some_and, unwrap_or, map_opt, take,
}
use pyren.Fan.Stall.{Tick, quiet, fault, raise_floor, idle, note_raised}
use pyren.Fan.Stall
use pyren.Fan.Curve.Floor.{pwm_deadband, abs_diff, last_written, reset}
use pyren.Fan.Tick.{FanConfig, FloorNotice, State, TickInputs, Board, Command, Event, floor_raised}
use pyren.Fan.Tick.Drive.{FloorLimit, floor_margin_rpm, pyren_floor, floor, sync_floor_override}

abbrev pub near_floor_margin_rpm : ℤ
near_floor_margin_rpm = pos 300

abbrev pub sweep_fine_step_rpm : ℤ
sweep_fine_step_rpm = pos 100

abbrev pub floor_notice_cap : ℕ
floor_notice_cap = 5

unfoldable pub forget_writes : State → State
forget_writes s = record s {
  hysteresis = reset s.hysteresis;
  split_written = none;
  released = false;
  stall = idle s.stall;
  zero_rpm = none;
}

abbrev pub raised_held : FanConfig → ℤ
raised_held c = wrap_i64 (unwrap_or c.fan_stable_min_rpm (pos 0) +ℤ sweep_fine_step_rpm)

abbrev pub both : Option ℤ → Option ℤ → (ℤ → ℤ → Bool) → Bool
both (some a) (some b) p = p a b
both _ _ p = false

-- Whether Pyren's floor, raised, is the driver's.
abbrev pub reached_driver_floor : FanConfig → Option ℤ → Bool
reached_driver_floor c driver =
    both (pyren_floor (some (raised_held c)) driver) driver (λ to d. leb_ℤ d to)

abbrev pub notice_of : Board → FanConfig → ℕ → FloorNotice
notice_of b c faults = record {
  at_unix_secs = b.unix_now;
  raised_from_rpm =
      unwrap_or (pyren_floor (some (unwrap_or c.fan_stable_min_rpm (pos 0))) b.driver_floor)
        (wrap_i64 (unwrap_or c.fan_stable_min_rpm (pos 0) +ℤ floor_margin_rpm));
  raised_to_rpm = unwrap_or (pyren_floor (some (raised_held c)) b.driver_floor) (raised_held c);
  stalls = faults;
  reached_driver_floor = reached_driver_floor c b.driver_floor;
}

abbrev pub raised_config : Board → FanConfig → ℕ → FanConfig
raised_config b c faults = record c {
  fan_stable_min_rpm = some (raised_held c);
  fan_floor_notices = take floor_notice_cap (notice_of b c faults ∷ c.fan_floor_notices);
}

abbrev pub latest_reached : List FloorNotice → Bool
latest_reached [] = false
latest_reached (n ∷ ns) = n.reached_driver_floor

-- A notice already says that the floor is the driver's.
abbrev pub is_capped : Board → FanConfig → Bool
is_capped b c = reached_driver_floor c b.driver_floor && latest_reached c.fan_floor_notices

abbrev pub raised_event : FloorNotice → Event
raised_event n = floor_raised n.raised_from_rpm n.raised_to_rpm n.stalls n.reached_driver_floor

-- What the watch of a pass leaves: the state, what was written and what is announced.
pub record Watched : Type 0 where
  pub state : State
  pub wrote : List Command
  pub events : List Event

unfoldable pub raise_floor_after_stalls : Board → ℕ → State → Watched
unfolding forget_writes
raise_floor_after_stalls b faults s =
    let c = s.config in
    if is_capped b c
    then record {
      state = record s { stall = note_raised s.stall b.raised_at };
      wrote = [];
      events = [];
    }
    else record {
      state = record (forget_writes s) {
        config = raised_config b c faults;
        save_failed = not b.saves;
        stall = note_raised (idle s.stall) b.raised_at;
      };
      wrote = sync_floor_override (floor b (raised_config b c faults)) b.floor_override_after;
      events = raised_event (notice_of b c faults) ∷ [];
    }

abbrev pub answer : Board → State → Tick → Watched
answer b s (raise_floor faults) = raise_floor_after_stalls b faults s
answer b s quiet = record { state = s; wrote = []; events = [] }
answer b s (fault n) = record { state = s; wrote = []; events = [] }

-- `i64::from(target) * max / 255`
abbrev pub expected_rpm : ℕ → ℤ → ℤ
expected_rpm target top = quot (wrap_i64 (scale target top)) 255

-- The hysteresis has a last write, and it is close to the target.
abbrev pub steady : State → ℕ → Bool
steady s target =
    is_some_and (last_written s.hysteresis) (λ last. leb (abs_diff last target) pwm_deadband)

abbrev pub near_floor : FloorLimit → Option ℤ → Option ℤ → Bool
near_floor f driver expected =
    both f.rpm driver (λ rpm d. ltb_ℤ rpm d)
    && both f.rpm expected (λ rpm e. leb_ℤ e (wrap_i64 (rpm +ℤ near_floor_margin_rpm)))

abbrev pub watch_at : Board → TickInputs → State → ℕ → ℤ → Watched
watch_at b i s target expected =
    let (stall, tick) = Stall.observe s.stall i.now_secs expected i.rpm (steady s target) in
    answer b (record s { stall = stall }) tick

unfoldable pub watch_stalls : Board → TickInputs → FloorLimit → ℕ → State → Watched
watch_stalls b i f target s =
    let expected = map_opt (expected_rpm target) s.config.fan_max_rpm in
    if near_floor f b.driver_floor expected
    then watch_at b i s target (unwrap_or expected (pos 0))
    else record { state = record s { stall = idle s.stall }; wrote = []; events = [] }
