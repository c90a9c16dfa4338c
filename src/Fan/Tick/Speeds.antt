-- ===== src/Fan/Tick/Speeds.antt =====
-- daemon/crates/fan/src/lib.rs: the speeds that a whole pass writes.
use pyren.Base.{
  ℕ, ◌≡◌, ◌⊎◌, inl, inr, refl, sym, subst, ◌∙◌, ap, Bool, true, false, ◌&&◌, ◌||◌, not, Bool-cases,
  Option, none, some, List, [], ◌∷◌, leb, F64Ops, if◌then◌else◌, is_some, arith, ℤ, pos, All,
  filter_opt, of_int, map_opt,
}
use pyren.Base
use pyren.Fan.Mode.{FanMode, auto, max, manual, curve, needs_pwm}
use pyren.Fan.Safety.Sensor.{plausible_c}
use pyren.Fan.Safety.Checker
use pyren.Fan.Curve.Floor.{target_pwm}
use pyren.Fan.Curve.Smoother.{push}
use pyren.Fan.Tick.{
  State, TickInputs, Board, Command, apply_pair, set_floor_override, Event, deferred, Done,
  drives_gpu_fan_apart, SensorFailureAction, to_max, to_auto, action_mode, reference_temp, gpu,
}
use pyren.Fan.Tick.Guards.{Guarded, guard, hold, held_pass, hold_due, by_checker}
use pyren.Fan.Tick.Drive.{
  Aim, speed, no_sensor, no_points, aim_in, aim_curve, aim_points, split_of, joined, gpu_order,
  gpu_curve_speed, curve_for,
}
use pyren.Fan.Tick.Stalls.{forget_writes}
use pyren.Fan.Tick.Pass.{
  should_write, write_pass, ordered, noted, follow, drive, put_back, unheld_pass, guarded_pass,
  tick_locked,
}
use pyren.Fan.Tick.Floors.{stop_at, Holds, pair_of, write_pass-Holds, floored-Holds}

-- The mode, the configuration and the ownership stand.
pub record IsSame (a b : State) : Type 0 where
  pub mode : b.mode ≡ a.mode
  pub config : b.config ≡ a.config
  pub owned : b.owned ≡ a.owned

same : (s : State) → IsSame s s
same s = record { mode = refl; config = refl; owned = refl }

none_waits :
    (i : TickInputs) (s : State) (mode : FanMode)
    → (needs_pwm mode ≡ false) ⊎ (should_write i s mode none ≡ false)
unfolding needs_pwm
none_waits i s auto = inl refl
none_waits i s max = inl refl
none_waits i s manual = inr refl
none_waits i s curve = inr refl

idle_pass :
    (b : Board) (i : TickInputs) (events : List Event) (s : State)
    → should_write i s s.mode none ≡ false
    → (write_pass b i none none [] events s).wrote ≡ []
unfolding write_pass
idle_pass b i events s e = rw e refl

idle-Holds :
    (b : Board) (i : TickInputs) (events : List Event) (s : State) (stop : ℕ)
    → All (Holds stop true) (write_pass b i none none [] events s).wrote
idle-Holds b i events s stop = go (none_waits i s s.mode)
  where
    go :
        (needs_pwm s.mode ≡ false) ⊎ (should_write i s s.mode none ≡ false)
        → All (Holds stop true) (write_pass b i none none [] events s).wrote
    go (inl e) = write_pass-Holds b i none none [] events s stop (inl e) tt
    go (inr e) = rw (idle_pass b i events s e) tt

ordered-Holds :
    (b : Board) (i : TickInputs) (target : ℕ) (split : Option (ℕ × ℕ)) (events : List Event)
    (s : State)
    → Base.max (pair_of (some target) split).0 (pair_of (some target) split).1 ≡ target
    → All (Holds (stop_at b s.config) true) (ordered b i (some target) split events s).wrote
ordered-Holds b i target split events s e = elim (Bool-cases (needs_pwm s.mode)) [
  | inl pwm ↦ rw pwm (floored-Holds b i target split events s e)
  | inr other ↦ rw other (
      write_pass-Holds b i (some target) split [] events (record s { zero_rpm = none })
        (stop_at b s.config) (inl other) tt)
]

gpu_curve-Same : (fl : F64Ops) (s : State) (t : Option ℤ) → IsSame s (gpu_curve_speed fl s t).0
gpu_curve-Same fl s none = same s
gpu_curve-Same fl s (some t) = record { mode = refl; config = refl; owned = refl }

gpu_order-Same :
    (fl : F64Ops) (i : TickInputs) (s : State) (mode : FanMode) → IsSame s (gpu_order fl i s mode).0
gpu_order-Same fl i s manual = same s
gpu_order-Same fl i s auto =
    gpu_curve-Same fl s (filter_opt plausible_c (reference_temp i.cpu_temp_c i.gpu_temp_c gpu))
gpu_order-Same fl i s max =
    gpu_curve-Same fl s (filter_opt plausible_c (reference_temp i.cpu_temp_c i.gpu_temp_c gpu))
gpu_order-Same fl i s curve =
    gpu_curve-Same fl s (filter_opt plausible_c (reference_temp i.cpu_temp_c i.gpu_temp_c gpu))

pub split-Same :
    (fl : F64Ops) (apart : Bool) (i : TickInputs) (s : State) (target : ℕ)
    → IsSame s (split_of fl apart i s (some target)).0
unfolding split_of
split-Same fl apart i s target = elim (Bool-cases (apart && needs_pwm s.mode)) [
  | inl own ↦ rw own (gpu_order-Same fl i s s.mode)
  | inr shared ↦ rw shared (same s)
]

joined_pair :
    (split : Option (ℕ × ℕ)) (target : ℕ)
    → (t : ℕ) × (joined split (some target) ≡ some t)
      × (Base.max (pair_of (some t) split).0 (pair_of (some t) split).1 ≡ t)
joined_pair none target = (target, refl, omega arith)
joined_pair (some (a, b)) target = (Base.max a b, refl, refl)

aim_points-Same : (s : State) (o : Option ℕ) → IsSame s (aim_points s o).0
aim_points-Same s none = record { mode = refl; config = refl; owned = refl }
aim_points-Same s (some pwm) = same s

aim_curve-Same : (fl : F64Ops) (s : State) (o : Option ℤ) → IsSame s (aim_curve fl s o).0
aim_curve-Same fl s none = record { mode = refl; config = refl; owned = refl }
aim_curve-Same fl s (some t) =
    let r = push fl s.smoother (of_int t) in
    let h =
      aim_points-Same (record s { smoother = r.0 })
        (target_pwm fl (curve_for s.config s.active_profile) r.1 s.config.interpolation) in
    record { mode = h.mode; config = h.config; owned = h.owned }

pub aim-Same :
    (fl : F64Ops) (i : TickInputs) (s : State) (mode : FanMode) → IsSame s (aim_in fl i s mode).0
aim-Same fl i s auto = same s
aim-Same fl i s max = same s
aim-Same fl i s manual = same s
aim-Same fl i s curve =
    aim_curve-Same fl s
      (filter_opt plausible_c (reference_temp i.cpu_temp_c i.gpu_temp_c s.config.reference_sensor))

follow-Holds :
    (fl : F64Ops) (b : Board) (apart : Bool) (i : TickInputs) (events : List Event) (s : State)
    (aim : Aim)
    → All (Holds (stop_at b s.config) true) (follow fl b apart i events s aim).wrote
unfolding needs_pwm split_of
follow-Holds fl b apart i events s no_sensor = tt
follow-Holds fl b apart i events s no_points = elim (Bool-cases s.released) [
  | inl released ↦ rw released tt
  | inr kept ↦ rw kept (inl refl, tt)
]
follow-Holds fl b apart i events s (speed none) =
    idle-Holds b i events (record (noted none s) { last_gpu_target_pwm = none; zero_rpm = none })
      (stop_at b s.config)
follow-Holds fl b apart i events s (speed (some target)) =
    let r = split_of fl apart i (noted (some target) s) (some target) in
    let (t, e, m) = joined_pair r.1 target in
    let s' : State = record r.0 { last_gpu_target_pwm = map_opt (λ x. x.1) r.1 } in
    rw e (
      subst (λ c. All (Holds (stop_at b c) true) (ordered b i (some t) r.1 events s').wrote)
        (split-Same fl apart i (noted (some target) s) target).config
        (ordered-Holds b i t r.1 events s' m))

drive-Holds :
    (fl : F64Ops) (b : Board) (apart : Bool) (i : TickInputs) (events : List Event) (s : State)
    → All (Holds (stop_at b s.config) true) (drive fl b apart i events s).wrote
unfolding drive
drive-Holds fl b apart i events s =
    let r = aim_in fl i s s.mode in
    subst (λ c. All (Holds (stop_at b c) true) (follow fl b apart i events r.0 r.1).wrote)
      (aim-Same fl i s s.mode).config (follow-Holds fl b apart i events r.0 r.1)

owned-Holds :
    (stop : ℕ) (owned : Bool) (cs : List Command)
    → All (Holds stop true) cs
    → All (Holds stop owned) cs
owned-Holds stop owned [] h = tt
owned-Holds stop owned (apply_pair m c g ∷ cs) (inl e, hs) = (inl e, owned-Holds stop owned cs hs)
owned-Holds stop owned (apply_pair m c g ∷ cs) (inr (inl e), hs) = cc
owned-Holds stop owned (apply_pair m c g ∷ cs) (inr (inr e), hs) =
    (inr (inr e), owned-Holds stop owned cs hs)
owned-Holds stop owned (set_floor_override n ∷ cs) (h, hs) = (tt, owned-Holds stop owned cs hs)

owned_or :
    (stop : ℕ) (owned : Bool) (x y : Done)
    → All (Holds stop true) x.wrote
    → All (Holds stop false) y.wrote
    → All (Holds stop owned) (if owned then x else y).wrote
owned_or stop true x y h k = h
owned_or stop false x y h k = k

unheld-Holds :
    (fl : F64Ops) (b : Board) (apart : Bool) (i : TickInputs) (events : List Event) (s : State)
    → All (Holds (stop_at b s.config) s.owned) (unheld_pass fl b apart i events s).wrote
unfolding unheld_pass forget_writes
unheld-Holds fl b apart i events s =
    let s' : State = forget_writes (record s { safety_hold = none }) in
    elim (Bool-cases (is_some s.safety_hold)) [
      | inl held ↦ rw held (
          owned_or (stop_at b s.config) s.owned (drive fl b apart i events s')
            (put_back b events s') (drive-Holds fl b apart i events s') (inr (inl refl), tt))
      | inr free ↦ rw free (
          owned_or (stop_at b s.config) s.owned (drive fl b apart i events s)
            (record { state = s; wrote = []; events = events; outcome = deferred })
            (drive-Holds fl b apart i events s) tt)
    ]

held-Holds :
    (b : Board) (now : ℕ) (forced : FanMode) (events : List Event) (s : State) (stop : ℕ)
    (owned : Bool)
    → needs_pwm forced ≡ false
    → All (Holds stop owned) (held_pass b now forced events s).wrote
unfolding held_pass
held-Holds b now forced events s stop owned e =
    elim (Bool-cases (hold_due s.safety_hold forced now)) [
      | inl due ↦ rw due (inl e, tt)
      | inr early ↦ rw early tt
    ]

-- A guard asks for a mode that is without a speed.
abbrev NoSpeed : Option FanMode → Type 0
NoSpeed none = Unit {0}
NoSpeed (some m) = needs_pwm m ≡ false

guarded-Holds :
    (fl : F64Ops) (b : Board) (apart : Bool) (i : TickInputs) (g : Guarded) (o : Option FanMode)
    → NoSpeed o
    → All (Holds (stop_at b (g.state).config) (g.state).owned) (guarded_pass fl b apart i g o).wrote
guarded-Holds fl b apart i g none h = unheld-Holds fl b apart i g.events g.state
guarded-Holds fl b apart i g (some forced) h =
    held-Holds b i.now_secs forced g.events g.state (stop_at b (g.state).config) (g.state).owned h

phase-NoSpeed : (p : Checker.Phase) → NoSpeed (Checker.phase_command p)
unfolding needs_pwm
phase-NoSpeed (Checker.watching since baseline) = tt
phase-NoSpeed Checker.answered = tt
phase-NoSpeed (Checker.firmware since baseline done) = refl
phase-NoSpeed Checker.max_phase = refl

command-NoSpeed : (c : Checker.Checker) → NoSpeed (Checker.command c)
unfolding Checker.command
command-NoSpeed none = tt
command-NoSpeed (some e) = phase-NoSpeed e.phase

checker-NoSpeed : (s : State) (o : Option FanMode) → NoSpeed o → NoSpeed (by_checker s o)
unfolding needs_pwm
checker-NoSpeed s (some m) h = h
checker-NoSpeed s none h = elim (Bool-cases (s.stalled && needs_pwm s.mode)) [
  | inl stalled ↦ rw stalled refl
  | inr fine ↦ rw fine tt
]

action-NoSpeed : (a : SensorFailureAction) → needs_pwm (action_mode a) ≡ false
unfolding needs_pwm
action-NoSpeed to_max = refl
action-NoSpeed to_auto = refl

hold-NoSpeed : (g : Guarded) → NoSpeed (hold g)
unfolding hold needs_pwm
hold-NoSpeed g = elim (Bool-cases g.critical) [
  | inl critical ↦ rw critical refl
  | inr cool ↦ elim (Bool-cases g.sensor_failed) [
    | inl failed ↦ rw (cool, failed) (action-NoSpeed (g.state.config).sensor_failure_action)
    | inr fine ↦
        rw (cool, fine)
          (checker-NoSpeed g.state (Checker.command g.state.checker)
            (command-NoSpeed g.state.checker))
  ]
]

-- No pass of the loop tells the fans to turn slower than they can hold. Whatever the temperatures,
-- the setting and what the driver answers: each speed that a pass writes in manual or curve mode is,
-- for the faster of the two fans, at least the speed under which the fans are handed to the firmware
-- instead; unless the daemon does not own the mode, and puts back the speed that it found.
pub tick-Holds :
    (fl : F64Ops) (b : Board) (i : TickInputs) (s : State)
    → All (Holds (stop_at b s.config) s.owned) (tick_locked fl b i s).wrote
unfolding tick_locked guard
tick-Holds fl b i s =
    let apart = drives_gpu_fan_apart b s.config in
    let g = guard fl apart i s in
    elim (Bool-cases (s.exiting || (s.calibrating || s.cleaning))) [
      | inl taken ↦ rw taken tt
      | inr free ↦ rw free (guarded-Holds fl b apart i g (hold g) (hold-NoSpeed g))
    ]
