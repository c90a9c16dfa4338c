-- ===== src/Overclock/Trial/Card.antt =====
-- daemon/crates/overclock/src/lib.rs: writing a target to a card, the climb, and saving.
use pyren.Base.{
  suc, true, false, Option, none, some, List, [], ◌∷◌, is_some, not, unwrap_or, map_opt,
  if◌then◌else◌,
}
use pyren.Overclock.Plan.{Target, ramp}
use pyren.Overclock.Plan.Climbing.{enough}
use pyren.Overclock.Trial.{
  Vendor, nvidia, GpuProbe, ErrorKind, not_capable, failed, permission_denied, io, busy,
  invalid_params, internal, driver_says, cannot_drive, stopped_at, Error, World, Driver, System,
}

abbrev pub driver_error : ErrorKind → Error
driver_error k = record { kind = k; reason = driver_says }

abbrev pub attempt : World → GpuProbe → Target → Option ErrorKind → World
attempt w g t answer = record w {
  calls = suc w.calls;
  written = record { gpu = g.id; target = t; took = not (is_some answer) } ∷ w.written;
}

-- Only one vendor's cards are driven.
unfoldable pub write_at : Driver → Vendor → GpuProbe → Target → World → World × Option Error
write_at d nvidia g t w =
    (attempt w g t (d.write w.calls g t), map_opt driver_error (d.write w.calls g t))
write_at d _ g t w = (w, some (record { kind = not_capable; reason = cannot_drive }))

unfoldable pub write_target : Driver → GpuProbe → Target → World → World × Option Error
write_target d g t w = write_at d g.vendor g t w

abbrev pub verify_at : Driver → Vendor → GpuProbe → Target → World → World × Option Error
verify_at d nvidia g t w =
    (record w { calls = suc w.calls }, map_opt driver_error (d.verify w.calls g t))
verify_at d _ g t w = (w, none)

unfoldable pub verify : Driver → GpuProbe → Target → World → World × Option Error
verify d g t w = verify_at d g.vendor g t w

-- `keep_kind`: the kinds that a client branches on are kept.
abbrev pub kept_kind : ErrorKind → ErrorKind
kept_kind not_capable = not_capable
kept_kind permission_denied = permission_denied
kept_kind io = io
kept_kind busy = busy
kept_kind failed = failed
kept_kind invalid_params = failed
kept_kind internal = failed

abbrev pub step_error : Target → Target → Error → Error
step_error step from e = record { kind = kept_kind e.kind; reason = stopped_at step from }

-- A step that failed puts the card back where the climb began, as far as the driver lets it.
abbrev pub put_back : Driver → GpuProbe → Target → Target → World → Error → World × Option Error
put_back d g from step w e = ((write_target d g from w).0, some (step_error step from e))

-- The steps of `climb`.
unfoldable pub climb_steps : Driver → GpuProbe → Target → List Target → World → World × Option Error
climb_steps d g from [] w = (w, none)
climb_steps d g from (step ∷ steps) w =
    let (w1, e) = write_target d g step w in
    let (w2, v) = verify d g step w1 in
    elim e [
      | some x ↦ put_back d g from step w1 x
      | none ↦ elim v [
        | some x ↦ put_back d g from step w2 x
        | none ↦ climb_steps d g from steps w2
      ]
    ]

-- `ramp` with fuel that is enough for it.
unfoldable pub climb : Driver → GpuProbe → Target → Target → World → World × Option Error
climb d g from to w = climb_steps d g from (unwrap_or (ramp (enough from to) from to) []) w

-- `persist`: a save that fails is remembered, and the configuration on disk stays.
unfoldable pub persist : Driver → System → System
persist d s =
    if d.saves_at s.world.saves
    then record {
      state = record s.state { save_failed = false };
      world = record s.world { saves = suc s.world.saves; disk = some s.state.config };
    }
    else record {
      state = record s.state { save_failed = true };
      world = record s.world { saves = suc s.world.saves };
    }
