-- ===== src/Fan/Tick/Floors.antt =====
-- daemon/crates/fan/src/lib.rs: no pass tells the fans to turn slower than they can hold.
use pyren.Base.{
  ℕ, ◌+◌, ◌≤◌, ◌≡◌, ◌⊎◌, inl, inr, refl, sym, subst, ◌∙◌, ap, min, Bool, true, false, ◌&&◌, ◌||◌,
  Bool-cases, Option, none, some, List, [], ◌∷◌, ◌++◌, leb, ltb, ◌==◌, F64Ops, if◌then◌else◌,
  is_some, arith, ℤ, pos, negsuc, All, unwrap_or, clamp_ℤ, is_some_and, map_opt,
}
use pyren.Base
use pyren.Fan.Mode.{needs_pwm}
use pyren.Fan.Safety.ZeroRpm
use pyren.Fan.Curve.Floor.{stop_below_pwm, release_fans}
use pyren.Fan.Stall
use pyren.Fan.Stall.{Tick, quiet, fault, raise_floor}
use pyren.Fan.Tick.{
  FanConfig, State, TickInputs, Board, Command, apply_pair, set_floor_override, Event, applied,
}
use pyren.Fan.Tick.Drive.{FloorLimit, floor, sync_floor_override, released_pass}
use pyren.Fan.Tick.Stalls.{
  Watched, watch_stalls, answer, raise_floor_after_stalls, near_floor, is_capped, raised_config,
  expected_rpm, steady,
}
use pyren.Fan.Tick.Pass.{
  should_write, split_moved, write_pass, commanded, taken_back, turning, floored,
}

-- The speed under which the fans are handed to the firmware.
abbrev pub stop_at : Board → FanConfig → ℕ
stop_at b c = stop_below_pwm (floor b c).rpm c.fan_max_rpm

-- A speed is a setting that was found, or one that the fans can hold.
abbrev pub Holds : ℕ → Bool → Command → Type 0
Holds stop owned (apply_pair mode cpu gpu) =
    (needs_pwm mode ≡ false) ⊎ ((owned ≡ false) ⊎ (leb stop (Base.max cpu gpu) ≡ true))
Holds stop owned (set_floor_override n) = Unit {0}

All-append : {A : Type 0} (P : A → Type 0) (xs ys : List A) → All P xs → All P ys → All P (xs ++ ys)
All-append P [] ys h k = k
All-append P (x ∷ xs) ys (p, h) k = (p, All-append P xs ys h k)

stop_small : (lo hi : Option ℤ) → stop_below_pwm lo hi ≤ 255
unfolding stop_below_pwm
stop_small none hi = omega arith
stop_small (some lo) none = omega arith
stop_small (some lo) (some (negsuc n)) = omega arith
stop_small (some lo) (some (pos n)) = ground arith

kept_above :
    (target stop : ℕ) (released : Bool)
    → stop ≤ 255
    → release_fans target stop released ≡ false
    → leb stop target ≡ true
unfolding release_fans
kept_above target stop released h e = ground arith

sync-Holds :
    (stop : ℕ) (owned : Bool) (f : FloorLimit) (o : Option ℕ)
    → All (Holds stop owned) (sync_floor_override f o)
sync-Holds stop owned f o = go f.override_hundreds
  where
    go :
        (w : Option ℕ)
        → All (Holds stop owned) (elim w as (λ x. List Command) [
          | none ↦ []
          | some want ↦ if is_some_and o (λ p. p == want) then [] else set_floor_override want ∷ []
        ])
    go none = tt
    go (some want) = elim (Bool-cases (is_some_and o (λ p. p == want))) [
      | inl same ↦ rw same tt
      | inr other ↦ rw other (tt, tt)
    ]

-- The pair that a pass writes.
abbrev pub pair_of : Option ℕ → Option (ℕ × ℕ) → ℕ × ℕ
pair_of target split = unwrap_or split (unwrap_or target 0, unwrap_or target 0)

pub write_pass-Holds :
    (b : Board) (i : TickInputs) (target : Option ℕ) (split : Option (ℕ × ℕ)) (wrote : List Command)
    (events : List Event) (s : State) (stop : ℕ)
    → (needs_pwm s.mode ≡ false)
      ⊎ (leb stop (Base.max (pair_of target split).0 (pair_of target split).1) ≡ true)
    → All (Holds stop true) wrote
    → All (Holds stop true) (write_pass b i target split wrote events s).wrote
unfolding write_pass
write_pass-Holds b i target split wrote events s stop h k =
    elim (Bool-cases (should_write i s s.mode target || split_moved split s.split_written)) [
      | inl due ↦ rw due (
          All-append (Holds stop true) wrote
            (apply_pair s.mode (pair_of target split).0 (pair_of target split).1 ∷ []) k
            (fast h, tt))
      | inr stands ↦ rw stands k
    ]
  where
    fast :
        (needs_pwm s.mode ≡ false)
          ⊎ (leb stop (Base.max (pair_of target split).0 (pair_of target split).1) ≡ true)
        → Holds stop true (apply_pair s.mode (pair_of target split).0 (pair_of target split).1)
    fast (inl e) = inl e
    fast (inr e) = inr (inr e)

-- The mode stands, and only the driver's floor is written.
abbrev pub Quiet : ℕ → State → Watched → Type 0
Quiet stop s w = (w.state.mode ≡ s.mode) × All (Holds stop true) w.wrote

raise-Quiet :
    (b : Board) (faults : ℕ) (s : State) (stop : ℕ)
    → Quiet stop s (raise_floor_after_stalls b faults s)
unfolding raise_floor_after_stalls
raise-Quiet b faults s stop = elim (Bool-cases (is_capped b s.config)) [
  | inl capped ↦ rw capped (refl, tt)
  | inr raised ↦ rw raised (
    refl,
    sync-Holds stop true (floor b (raised_config b s.config faults)) b.floor_override_after,
  )
]

answer-Quiet : (b : Board) (s : State) (t : Tick) (stop : ℕ) → Quiet stop s (answer b s t)
answer-Quiet b s (raise_floor faults) stop = raise-Quiet b faults s stop
answer-Quiet b s quiet stop = (refl, tt)
answer-Quiet b s (fault n) stop = (refl, tt)

pub watch-Quiet :
    (b : Board) (i : TickInputs) (f : FloorLimit) (target : ℕ) (s : State) (stop : ℕ)
    → Quiet stop s (watch_stalls b i f target s)
unfolding watch_stalls
watch-Quiet b i f target s stop =
    elim (Bool-cases
      (near_floor f b.driver_floor (map_opt (expected_rpm target) s.config.fan_max_rpm))) [
        | inl near ↦ rw near (
            answer-Quiet b
              (record s {
                stall =
                    (Stall.observe s.stall i.now_secs
                      (unwrap_or (map_opt (expected_rpm target) s.config.fan_max_rpm) (pos 0)) i.rpm
                      (steady s target)).0;
              })
              (Stall.observe s.stall i.now_secs
                (unwrap_or (map_opt (expected_rpm target) s.config.fan_max_rpm) (pos 0)) i.rpm
                (steady s target)).1
              stop)
        | inr far ↦ rw far (refl, tt)
      ]

commanded-Holds :
    (b : Board) (i : TickInputs) (target : ℕ) (split : Option (ℕ × ℕ)) (events : List Event)
    (f : FloorLimit) (s : State) (stop : ℕ)
    → leb stop (Base.max (pair_of (some target) split).0 (pair_of (some target) split).1) ≡ true
    → All (Holds stop true) (commanded b i target split events f s).wrote
commanded-Holds b i target split events f s stop h =
    let w = watch_stalls b i f target s in
    write_pass-Holds b i (some target) split (sync_floor_override f b.floor_override ++ w.wrote)
      (events ++ w.events) w.state stop (inr h)
      (All-append (Holds stop true) (sync_floor_override f b.floor_override) w.wrote
        (sync-Holds stop true f b.floor_override) (watch-Quiet b i f target s stop).1)

turning-Holds :
    (b : Board) (i : TickInputs) (target : ℕ) (split : Option (ℕ × ℕ)) (events : List Event)
    (f : FloorLimit) (s : State) (stop : ℕ)
    → leb stop (Base.max (pair_of (some target) split).0 (pair_of (some target) split).1) ≡ true
    → All (Holds stop true) (turning b i target split events f s).wrote
unfolding needs_pwm
turning-Holds b i target split events f s stop h =
    let look : ZeroRpm.Look = record { now = i.now_secs; pwm = some target; rpm = i.rpm_reading } in
    elim (Bool-cases (ZeroRpm.observe s.zero_rpm look).1) [
      | inl stands ↦ rw stands (inl refl, tt)
      | inr turns ↦ rw turns (
          commanded-Holds b i target split events f
            (record s { zero_rpm = (ZeroRpm.observe s.zero_rpm look).0 }) stop h)
    ]

pub floored-Holds :
    (b : Board) (i : TickInputs) (target : ℕ) (split : Option (ℕ × ℕ)) (events : List Event)
    (s : State)
    → Base.max (pair_of (some target) split).0 (pair_of (some target) split).1 ≡ target
    → All (Holds (stop_at b s.config) true) (floored b i target split events s).wrote
unfolding floored needs_pwm
floored-Holds b i target split events s same =
    let stop = stop_at b s.config in
    elim (Bool-cases (release_fans target stop s.released)) [
      | inl release ↦ rw release (go s.released)
      | inr held ↦ rw held (
          turning-Holds b i target split events (floor b s.config) (taken_back s) stop (
            rw same (
              kept_above target stop s.released
                (stop_small (floor b s.config).rpm s.config.fan_max_rpm) held)))
    ]
  where
    go :
        (r : Bool)
        → All
            (Holds (stop_at b s.config) true)
            (if r
              then record { state = s; wrote = []; events = events; outcome = applied }
              else released_pass b events (record s { zero_rpm = none })).wrote
    go true = tt
    go false = (inl refl, tt)
