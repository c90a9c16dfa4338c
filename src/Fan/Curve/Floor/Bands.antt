-- ===== src/Fan/Curve/Floor/Bands.antt =====
-- daemon/crates/fan/src/curve.rs: what the speed floor and the deadbands guarantee.
use pyren.Base.{
  ℕ, suc, ◌+◌, ◌-◌, ◌*◌, ◌/◌, ◌≤◌, ◌<◌, ◌≡◌, ◌↔◌, refl, min, Bool, false, Option, none, some, List,
  [], ◌∷◌, if◌then◌else◌, All, arith, Bool-cases, Option-cases, ◌⊎◌, inl, inr, ℤ, pos, clamp_ℤ,
  scale, wrap-fits, int_laws, ◌+ℤ◌, ◌-ℤ◌, quot, scale_parts, pos_part, eq_of_parts,
}
use native.Mathlib.Nat.{le-div_iff_mul-le}
use pyren.Fan.Curve.Floor.{
  floor_pwm, stop_below_pwm, release_fans, Write, Hysteresis, applied, should_apply, far_enough,
  should_apply_after,
}

-- No product overflows.
abbrev pub Fits : ℕ → ℕ → Type 0
Fits lo hi = lo * 255 + hi < 9223372036854775808

floor_sum : (lo hi : ℕ) → 0 < hi → scale 255 (pos lo) +ℤ pos hi -ℤ pos 1 ≡ pos (lo * 255 + hi - 1)
floor_sum lo hi h =
    eq_of_parts (scale 255 (pos lo) +ℤ pos hi -ℤ pos 1) (pos (lo * 255 + hi - 1))
      (omega (int_laws, scale_parts 255 (pos lo)))

floor_pwm-Fits :
    (lo hi : ℕ) → 0 < hi → Fits lo hi → floor_pwm (pos lo) hi ≡ pos ((lo * 255 + hi - 1) / hi)
unfolding quot
floor_pwm-Fits lo hi h f =
    rw (floor_sum lo hi h) (
      rw (wrap-fits 9223372036854775808 (pos (lo * 255 + hi - 1)) (omega arith) (omega arith)) refl)

-- A speed is below the rounded-up quotient exactly when it falls short of the floor.
ceil_iff : (t lo hi : ℕ) → 0 < hi → 0 < lo → (t < (lo * 255 + hi - 1) / hi) ↔ (t * hi < lo * 255)
ceil_iff t lo hi h k = (
  λ a. omega (arith, (le-div_iff_mul-le {k = hi} {x = suc t} {y = lo * 255 + hi - 1} h).0 a),
  λ a. (le-div_iff_mul-le {k = hi} {x = suc t} {y = lo * 255 + hi - 1} h).1 (omega arith),
)

stop_below_pos :
    (lo hi : ℕ)
    → 0 < lo
    → 0 < hi
    → Fits lo hi
    → stop_below_pwm (some (pos lo)) (some (pos hi))
      ≡ pos_part (clamp_ℤ (pos 2) (pos 255) (pos ((lo * 255 + hi - 1) / hi)))
unfolding stop_below_pwm
stop_below_pos lo hi h k f = ground (arith, floor_pwm-Fits lo hi k f)

clamped_below :
    (t q : ℕ) → 2 ≤ t → t < 255 → (t < pos_part (clamp_ℤ (pos 2) (pos 255) (pos q))) ↔ (t < q)
clamped_below t q h k = (λ a. ground arith, λ a. ground arith)

-- With a measured floor and maximum, a value from 2 to 254 is below the threshold exactly when the
-- speed it stands for, a share of the maximum out of 255, is below the measured floor. Both
-- measures are positive and small enough for the code's product to be an `i64`.
pub stop_below_pwm_iff :
    (t lo hi : ℕ)
    → 0 < lo
    → 0 < hi
    → Fits lo hi
    → 2 ≤ t
    → t < 255
    → (t < stop_below_pwm (some (pos lo)) (some (pos hi))) ↔ (t * hi < lo * 255)
stop_below_pwm_iff t lo hi h k f a b = rw (stop_below_pos lo hi h k f) (
    (
      λ x. (ceil_iff t lo hi k h).0 ((clamped_below t ((lo * 255 + hi - 1) / hi) a b).0 x),
      λ y. (clamped_below t ((lo * 255 + hi - 1) / hi) a b).1 ((ceil_iff t lo hi k h).1 y),
    ))

-- The states that a run of targets goes through, each one starting from the last.
abbrev pub release_run : ℕ → Bool → List ℕ → Bool
release_run stop released [] = released
release_run stop released (t ∷ ts) = release_run stop (release_fans t stop released) ts

abbrev pub InBand : ℕ → ℕ → Type 0
InBand stop t = (stop ≤ t) × (t < min 255 (stop + 8))

release-InBand :
    (stop t : ℕ) (released : Bool)
    → 0 < stop
    → InBand stop t
    → release_fans t stop released ≡ released
unfolding release_fans
release-InBand stop t released h b = ground arith

-- While the targets stay in the band of 8 that starts at a floor above 0, and below 255, the fans
-- are neither released nor taken back, whatever the order of the targets.
pub release_run-InBand :
    (stop : ℕ) (released : Bool) (ts : List ℕ)
    → 0 < stop
    → All (InBand stop) ts
    → release_run stop released ts ≡ released
release_run-InBand stop released [] h b = refl
release_run-InBand stop released (t ∷ ts) h b =
    rw (release-InBand stop t released h b.0) (release_run-InBand stop released ts h b.1)

-- One tick of a driver that writes when it is told to.
abbrev pub tick : Hysteresis → ℕ → Option ℤ → Option ℤ → ℕ → Hysteresis
tick h target measured top now =
    if should_apply h target measured top now then applied h target now else h

-- The write that stands is recent, and it is the target or one the deadband lets stand for it.
abbrev pub Stands : Hysteresis → ℕ → Option ℤ → Option ℤ → ℕ → Type 0
Stands h target measured top now =
    (w : Write) × (h.last ≡ some w)
    × (now < w.at + 60)
    × ((w.pwm ≡ target) ⊎ (far_enough target w.pwm measured top ≡ false))

skip-Stands :
    (h : Hysteresis) (w : Write) (target : ℕ) (measured top : Option ℤ) (now : ℕ)
    → h.last ≡ some w
    → should_apply_after w target measured top now ≡ false
    → Stands h target measured top now
skip-Stands h w target measured top now l e = (w, l, ground arith, inr (ground arith))

write-Stands :
    (h : Hysteresis) (target : ℕ) (measured top : Option ℤ) (now : ℕ)
    → Stands (applied h target now) target measured top now
unfolding applied
write-Stands h target measured top now =
    (record { pwm = target; at = now }, refl, omega arith, inl refl)

skips-Stands :
    (h : Hysteresis) (target : ℕ) (measured top : Option ℤ) (now : ℕ)
    → should_apply h target measured top now ≡ false
    → Stands h target measured top now
unfolding should_apply
skips-Stands h target measured top now e = elim (Option-cases h.last) [
  | inl l ↦ absurd (ground arith)
  | inr (w, l) ↦ skip-Stands h w target measured top now l (ground arith)
]

-- After every tick there is a write less than 60 s old, and either it is the target itself or the
-- target is within the deadband of it.
pub tick-Stands :
    (h : Hysteresis) (target : ℕ) (measured top : Option ℤ) (now : ℕ)
    → Stands (tick h target measured top now) target measured top now
tick-Stands h target measured top now = elim (Bool-cases (should_apply h target measured top now)) [
  | inl e ↦ rw e (write-Stands h target measured top now)
  | inr e ↦ rw e (skips-Stands h target measured top now e)
]

abbrev pub Within : ℕ → ℕ → ℕ → Type 0
Within k a b = (a ≤ b + k) × (b ≤ a + k)

near-Within :
    (target last : ℕ) (measured : Option ℤ)
    → (last ≡ target) ⊎ (far_enough target last measured none ≡ false)
    → Within 8 target last
unfolding far_enough
near-Within target last measured (inl e) = (omega arith, omega arith)
near-Within target last none (inr e) = (ground arith, ground arith)
near-Within target last (some m) (inr e) = (ground arith, ground arith)

-- Without a measured maximum, after every tick of a driver that writes exactly when `should_apply`
-- says so, there is a write less than 60 s old and within 8 of the target.
pub tick-Within :
    (h : Hysteresis) (target : ℕ) (measured : Option ℤ) (now : ℕ)
    → (w : Write) × ((tick h target measured none now).last ≡ some w)
      × (now < w.at + 60)
      × Within 8 target w.pwm
tick-Within h target measured now =
    let s = tick-Stands h target measured none now in
    (s.0, s.1, s.2, near-Within target (s.0).pwm measured s.3)
