-- ===== src/Fan/Tick/Kept.antt =====
-- daemon/crates/fan/src/lib.rs: what no pass changes.
use pyren.Base.{
  ℕ, ◌≡◌, inl, inr, refl, ◌∙◌, Bool, true, false, ◌||◌, Bool-cases, Option, none, some, List, [],
  ◌++◌, F64Ops, if◌then◌else◌, is_some, unwrap_or, map_opt, pos,
}
use pyren.Fan.Mode.{FanMode, needs_pwm}
use pyren.Fan.Safety.ZeroRpm
use pyren.Fan.Curve.Floor.{stop_below_pwm, release_fans, reset}
use pyren.Fan.Tick.{
  State, TickInputs, Board, Command, Event, applied, deferred, Done, drives_gpu_fan_apart,
}
use pyren.Fan.Tick.Guards.{Guarded, guard, hold, hold_due, held_pass, record_write}
use pyren.Fan.Tick.Drive.{
  FloorLimit, floor, sync_floor_override, Aim, speed, no_sensor, no_points, aim_in, split_of,
  joined, released_pass,
}
use pyren.Fan.Stall
use pyren.Fan.Stall.{Tick, quiet, fault, raise_floor}
use pyren.Fan.Tick.Stalls.{
  forget_writes, watch_stalls, raise_floor_after_stalls, is_capped, answer, expected_rpm,
  near_floor, steady,
}
use pyren.Fan.Tick.Speeds.{IsSame, aim-Same, split-Same}
use pyren.Fan.Tick.Pass.{
  should_write, split_moved, write_pass, written, taken_back, turning, floored, ordered, noted,
  follow, drive, put_back, unheld_pass, guarded_pass, tick_locked,
}

-- What no pass changes: the mode, the stored mode and speed, and whether the fans are Pyren's.
abbrev pub kept : State → FanMode × FanMode × ℕ × Bool
kept s = (s.mode, s.config.mode, (s.config).manual_pwm, s.owned)

abbrev Stays : State → Done → Type 0
Stays s d = kept d.state ≡ kept s

kept-IsSame : (a b : State) → IsSame a b → kept b ≡ kept a
kept-IsSame a b h = rw (h.mode, h.config, h.owned) refl

kept-raise :
    (b : Board) (faults : ℕ) (s : State) → kept (raise_floor_after_stalls b faults s).state ≡ kept s
unfolding raise_floor_after_stalls
kept-raise b faults s = elim (Bool-cases (is_capped b s.config)) [
  | inl capped ↦ rw capped refl
  | inr raised ↦ rw raised refl
]

kept-answer : (b : Board) (s : State) (t : Tick) → kept (answer b s t).state ≡ kept s
kept-answer b s (raise_floor faults) = kept-raise b faults s
kept-answer b s quiet = refl
kept-answer b s (fault n) = refl

kept-watch :
    (b : Board) (i : TickInputs) (f : FloorLimit) (target : ℕ) (s : State)
    → kept (watch_stalls b i f target s).state ≡ kept s
unfolding watch_stalls
kept-watch b i f target s =
    let expected = map_opt (expected_rpm target) s.config.fan_max_rpm in
    elim (Bool-cases (near_floor f b.driver_floor expected)) [
      | inl near ↦ rw near (
          kept-answer b
            (record s {
              stall =
                  (Stall.observe s.stall i.now_secs (unwrap_or expected (pos 0)) i.rpm
                    (steady s target)).0;
            })
            (Stall.observe s.stall i.now_secs (unwrap_or expected (pos 0)) i.rpm
              (steady s target)).1)
      | inr far ↦ rw far refl
    ]

kept-record : (takes : Bool) (s : State) → kept (record_write takes s) ≡ kept s
kept-record true s = refl
kept-record false s = refl

kept-written :
    (takes : Bool) (pwm now : ℕ) (split : Option (ℕ × ℕ)) (s : State)
    → kept (written takes pwm now split s) ≡ kept s
kept-written true pwm now split s = refl
kept-written false pwm now split s = refl

write-Stays :
    (b : Board) (i : TickInputs) (target : Option ℕ) (split : Option (ℕ × ℕ)) (cs : List Command)
    (events : List Event) (s : State)
    → Stays s (write_pass b i target split cs events s)
unfolding write_pass
write-Stays b i target split cs events s =
    elim (Bool-cases (should_write i s s.mode target || split_moved split s.split_written)) [
      | inl due ↦ rw due (kept-written b.takes (unwrap_or target 0) i.now_secs split s)
      | inr stands ↦ rw stands refl
    ]

held-Stays :
    (b : Board) (now : ℕ) (forced : FanMode) (events : List Event) (s : State)
    → Stays s (held_pass b now forced events s)
unfolding held_pass
held-Stays b now forced events s = elim (Bool-cases (hold_due s.safety_hold forced now)) [
  | inl due ↦ rw due (
      kept-record b.takes (record s {
        hysteresis = reset s.hysteresis;
        released = false;
        safety_hold = if b.takes then some (forced, now) else s.safety_hold;
      }))
  | inr early ↦ rw early refl
]

turning-Stays :
    (b : Board) (i : TickInputs) (target : ℕ) (split : Option (ℕ × ℕ)) (events : List Event)
    (f : FloorLimit) (s : State)
    → Stays s (turning b i target split events f s)
turning-Stays b i target split events f s =
    let look : ZeroRpm.Look = record { now = i.now_secs; pwm = some target; rpm = i.rpm_reading } in
    let s' : State = record s { zero_rpm = (ZeroRpm.observe s.zero_rpm look).0 } in
    let w = watch_stalls b i f target s' in
    elim (Bool-cases (ZeroRpm.observe s.zero_rpm look).1) [
      | inl stands ↦ rw stands (
          kept-record b.takes (record s {
            stalled = true;
            zero_rpm = none;
            hysteresis = reset s.hysteresis;
            safety_hold = if b.takes then some (FanMode.auto, i.now_secs) else s.safety_hold;
          }))
      | inr turns ↦ rw turns (
          write-Stays b i (some target) split (sync_floor_override f b.floor_override ++ w.wrote)
            (events ++ w.events) w.state
          ∙ kept-watch b i f target s')
    ]

kept-taken_back : (s : State) → kept (taken_back s) ≡ kept s
kept-taken_back s = elim (Bool-cases s.released) [
  | inl released ↦ rw released refl
  | inr kept ↦ rw kept refl
]

floored-Stays :
    (b : Board) (i : TickInputs) (target : ℕ) (split : Option (ℕ × ℕ)) (events : List Event)
    (s : State)
    → Stays s (floored b i target split events s)
unfolding floored
floored-Stays b i target split events s =
    elim (Bool-cases (
      release_fans target (stop_below_pwm (floor b s.config).rpm s.config.fan_max_rpm)
        s.released)) [
          | inl release ↦ rw release (go s.released)
          | inr held ↦ rw held (
              turning-Stays b i target split events (floor b s.config) (taken_back s)
              ∙ kept-taken_back s)
        ]
  where
    go :
        (r : Bool)
        → Stays s (
            if r
            then record { state = s; wrote = []; events = events; outcome = applied }
            else released_pass b events (record s { zero_rpm = none }))
    go true = refl
    go false =
        kept-record b.takes
          (record s { zero_rpm = none; released = true; hysteresis = reset s.hysteresis })

ordered-Stays :
    (b : Board) (i : TickInputs) (target : Option ℕ) (split : Option (ℕ × ℕ)) (events : List Event)
    (s : State)
    → Stays s (ordered b i target split events s)
ordered-Stays b i none split events s =
    write-Stays b i none split [] events (record s { zero_rpm = none })
ordered-Stays b i (some target) split events s = elim (Bool-cases (needs_pwm s.mode)) [
  | inl pwm ↦ rw pwm (floored-Stays b i target split events s)
  | inr other ↦
      rw other (write-Stays b i (some target) split [] events (record s { zero_rpm = none }))
]

follow-Stays :
    (fl : F64Ops) (b : Board) (apart : Bool) (i : TickInputs) (events : List Event) (s : State)
    (aim : Aim)
    → Stays s (follow fl b apart i events s aim)
unfolding split_of
follow-Stays fl b apart i events s no_sensor = refl
follow-Stays fl b apart i events s no_points = elim (Bool-cases s.released) [
  | inl released ↦ rw released refl
  | inr kept ↦
      rw kept (kept-record b.takes (record s { released = true; hysteresis = reset s.hysteresis }))
]
follow-Stays fl b apart i events s (speed none) =
    ordered-Stays b i none none events (record (noted none s) { last_gpu_target_pwm = none })
follow-Stays fl b apart i events s (speed (some target)) =
    let r = split_of fl apart i (noted (some target) s) (some target) in
    ordered-Stays b i (joined r.1 (some target)) r.1 events
      (record r.0 { last_gpu_target_pwm = map_opt (λ x. x.1) r.1 })
    ∙ kept-IsSame (noted (some target) s) r.0 (split-Same fl apart i (noted (some target) s) target)

drive-Stays :
    (fl : F64Ops) (b : Board) (apart : Bool) (i : TickInputs) (events : List Event) (s : State)
    → Stays s (drive fl b apart i events s)
unfolding drive
drive-Stays fl b apart i events s =
    let r = aim_in fl i s s.mode in
    follow-Stays fl b apart i events r.0 r.1 ∙ kept-IsSame s r.0 (aim-Same fl i s s.mode)

either-Stays :
    (s : State) (o : Bool) (x y : Done) → Stays s x → Stays s y → Stays s (if o then x else y)
either-Stays s true x y h k = h
either-Stays s false x y h k = k

unheld-Stays :
    (fl : F64Ops) (b : Board) (apart : Bool) (i : TickInputs) (events : List Event) (s : State)
    → Stays s (unheld_pass fl b apart i events s)
unfolding unheld_pass forget_writes
unheld-Stays fl b apart i events s =
    let s' : State = forget_writes (record s { safety_hold = none }) in
    elim (Bool-cases (is_some s.safety_hold)) [
      | inl held ↦ rw held (
          either-Stays s s.owned (drive fl b apart i events s') (put_back b events s')
            (drive-Stays fl b apart i events s') (kept-record b.takes s'))
      | inr free ↦ rw free (
          either-Stays s s.owned (drive fl b apart i events s)
            (record { state = s; wrote = []; events = events; outcome = deferred })
            (drive-Stays fl b apart i events s) refl)
    ]

guarded-Stays :
    (fl : F64Ops) (b : Board) (apart : Bool) (i : TickInputs) (g : Guarded) (o : Option FanMode)
    → Stays g.state (guarded_pass fl b apart i g o)
guarded-Stays fl b apart i g none = unheld-Stays fl b apart i g.events g.state
guarded-Stays fl b apart i g (some forced) = held-Stays b i.now_secs forced g.events g.state

pub tick-Stays :
    (fl : F64Ops) (b : Board) (i : TickInputs) (s : State) → Stays s (tick_locked fl b i s)
unfolding tick_locked guard
tick-Stays fl b i s =
    let apart = drives_gpu_fan_apart b s.config in
    let g = guard fl apart i s in
    elim (Bool-cases (s.exiting || (s.calibrating || s.cleaning))) [
      | inl taken ↦ rw taken refl
      | inr free ↦ rw free (guarded-Stays fl b apart i g (hold g))
    ]
