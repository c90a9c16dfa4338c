-- ===== src/Overclock/Trial/Disk.antt =====
-- daemon/crates/overclock/src/lib.rs: the driver's calls leave the saved configuration alone.
use pyren.Base.{◌≡◌, refl, List, [], ◌∷◌, unwrap_or, arith}
use pyren.Overclock.Plan.{Target, ramp}
use pyren.Overclock.Plan.Climbing.{enough}
use pyren.Overclock.Trial.{Vendor, nvidia, amd, intel, unknown, GpuProbe, World, Driver}
use pyren.Overclock.Trial.Card.{climb, climb_steps, write_target, write_at, verify, verify_at}

write_at-disk :
    (d : Driver) (v : Vendor) (g : GpuProbe) (t : Target) (w : World)
    → (write_at d v g t w).0.disk ≡ w.disk
unfolding write_at
write_at-disk d nvidia g t w = refl
write_at-disk d amd g t w = refl
write_at-disk d intel g t w = refl
write_at-disk d unknown g t w = refl

pub write_target-disk :
    (d : Driver) (g : GpuProbe) (t : Target) (w : World) → (write_target d g t w).0.disk ≡ w.disk
unfolding write_target
write_target-disk d g t w = write_at-disk d g.vendor g t w

verify_at-disk :
    (d : Driver) (v : Vendor) (g : GpuProbe) (t : Target) (w : World)
    → (verify_at d v g t w).0.disk ≡ w.disk
verify_at-disk d nvidia g t w = refl
verify_at-disk d amd g t w = refl
verify_at-disk d intel g t w = refl
verify_at-disk d unknown g t w = refl

verify-disk :
    (d : Driver) (g : GpuProbe) (t : Target) (w : World) → (verify d g t w).0.disk ≡ w.disk
unfolding verify
verify-disk d g t w = verify_at-disk d g.vendor g t w

climb_steps-disk :
    (d : Driver) (g : GpuProbe) (from : Target) (steps : List Target) (w : World)
    → (climb_steps d g from steps w).0.disk ≡ w.disk
unfolding climb_steps
climb_steps-disk d g from [] w = refl
climb_steps-disk d g from (t ∷ ts) w =
    let w1 = (write_target d g t w).0 in
    let w2 = (verify d g t w1).0 in
    ground (
      arith,
      write_target-disk d g t w,
      verify-disk d g t w1,
      write_target-disk d g from w1,
      write_target-disk d g from w2,
      climb_steps-disk d g from ts w2,
    )

pub climb-disk :
    (d : Driver) (g : GpuProbe) (from to : Target) (w : World)
    → (climb d g from to w).0.disk ≡ w.disk
unfolding climb
climb-disk d g from to w =
    climb_steps-disk d g from (unwrap_or (ramp (enough from to) from to) []) w
