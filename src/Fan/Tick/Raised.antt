-- ===== src/Fan/Tick/Raised.antt =====
-- daemon/crates/fan/src/lib.rs: what a raise of Pyren's floor does to it.
use pyren.Base.{
  ℕ, ◌+◌, ◌≤◌, ◌<◌, ◌≡◌, ◌⊎◌, inl, inr, refl, ◌∙◌, ap, min, Bool-cases, Option, some, ◌∷◌, ℤ, pos,
  wrap_i64, wrap-fits, min_ℤ, ◌+ℤ◌, arith, length, length-take, unwrap_or,
}
use pyren.Fan.Stall.{note_raised}
use pyren.Fan.Tick.{FanConfig, State, Board}
use pyren.Fan.Tick.Drive.{pyren_floor}
use pyren.Fan.Tick.Stalls.{is_capped, raised_held, notice_of, raise_floor_after_stalls}

sum_hundred : (n : ℕ) → pos n +ℤ pos 100 ≡ pos (n + 100)
unfolding ◌+ℤ◌
sum_hundred n = ground arith

plus_hundred : (n : ℕ) → n < 4611686018427387904 → wrap_i64 (pos n +ℤ pos 100) ≡ pos (n + 100)
plus_hundred n h =
    ap wrap_i64 (sum_hundred n)
    ∙ wrap-fits 9223372036854775808 (pos (n + 100)) (omega arith) (omega arith)

least : (a b : ℕ) → min_ℤ (pos a) (pos b) ≡ pos (min a b)
least a b = ground arith

floor_of :
    (n d : ℕ)
    → n < 4611686018427387904
    → pyren_floor (some (pos n)) (some (pos d)) ≡ some (pos (min (n + 100) d))
unfolding pyren_floor
floor_of n d h = ap (λ x. some (min_ℤ x (pos d))) (plus_hundred n h) ∙ ap some (least (n + 100) d)

-- The floor of the fans is higher than it was, or as high, and not over the driver's.
pub record IsHigher (c c' : FanConfig) (driver : Option ℤ) (d : ℕ) : Type 0 where
  pub from : ℕ
  pub to : ℕ
  pub before : pyren_floor c.fan_stable_min_rpm driver ≡ some (pos from)
  pub after : pyren_floor c'.fan_stable_min_rpm driver ≡ some (pos to)
  pub higher : from ≤ to
  pub within : to ≤ d

-- A raise of the floor after stalls only goes up and never past the driver's own, and begins the
-- cooldown. With a stored speed held and a driver's floor that are not negative, the speed below
-- 2^62: Pyren's floor with the configuration after it is at least the one before and at most the
-- driver's, the stored speed is the same or 100 rpm more, at most five notices are kept if there
-- were no more, and the raise is on record at its time, also when nothing is left to raise.
pub raise-IsHigher :
    (b : Board) (faults : ℕ) (s : State) (n d : ℕ)
    → s.config.fan_stable_min_rpm ≡ some (pos n)
    → b.driver_floor ≡ some (pos d)
    → n < 4611686018427387804
    → length s.config.fan_floor_notices ≤ 5
    → IsHigher s.config (raise_floor_after_stalls b faults s).state.config b.driver_floor d
      × (((raise_floor_after_stalls b faults s).state.config.fan_stable_min_rpm ≡ some (pos n))
          ⊎ ((raise_floor_after_stalls b faults s).state.config.fan_stable_min_rpm
              ≡ some (pos (n + 100))))
      × (length (raise_floor_after_stalls b faults s).state.config.fan_floor_notices ≤ 5)
      × ((raise_floor_after_stalls b faults s).state.stall.last_raise ≡ some b.raised_at)
unfolding raise_floor_after_stalls note_raised
raise-IsHigher b faults s n d e f small few =
    let old =
      ap (λ h. pyren_floor h b.driver_floor) e
      ∙ ap (pyren_floor (some (pos n))) f
      ∙ floor_of n d (omega arith) in
    let next : raised_held s.config ≡ pos (n + 100) =
      ap (λ h. wrap_i64 (unwrap_or h (pos 0) +ℤ pos 100)) e ∙ plus_hundred n (omega arith) in
    let new =
      ap (λ h. pyren_floor (some h) b.driver_floor) next
      ∙ ap (pyren_floor (some (pos (n + 100)))) f
      ∙ floor_of (n + 100) d (omega arith) in
    elim (Bool-cases (is_capped b s.config)) [
      | inl capped ↦ rw capped (
        record {
          from = min (n + 100) d;
          to = min (n + 100) d;
          before = old;
          after = old;
          higher = omega arith;
          within = omega arith;
        },
        inl e,
        few,
        refl,
      )
      | inr raised ↦ rw raised (
        record {
          from = min (n + 100) d;
          to = min (n + 100 + 100) d;
          before = old;
          after = new;
          higher = omega arith;
          within = omega arith;
        },
        inr (ap some next),
        omega (arith, length-take 5 (notice_of b s.config faults ∷ s.config.fan_floor_notices)),
        refl,
      )
    ]
