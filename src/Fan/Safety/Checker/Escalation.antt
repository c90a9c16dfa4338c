-- ===== src/Fan/Safety/Checker/Escalation.antt =====
-- The deadline of the thermal checker of daemon/crates/fan/src/safety.rs: heat that the fans do not
-- answer ends in full speed, in time.
use pyren.Base.{
  ℕ, ◌+◌, ◌≤◌, ◌<◌, ◌≡◌, refl, Bool, true, false, List, [], ◌∷◌, Option, none, some, ℤ, ◌+ℤ◌, ◌≤ℤ◌,
  ◌<ℤ◌, F64, F64Ops, leb_F, arith, +ℤ_parts, ltb_F, All, is_some_and,
}
use pyren.Fan.Mode.{max}
use pyren.Fan.Safety.Critical.{HeatThresholds}
use pyren.Fan.Safety.Checker.{
  Phase, watching, answered, firmware, max_phase, Episode, Evidence, Checker, positive, near_max,
  responded, responded_at, not_by_command, command, advance, cooled, is_hot, begin, go_on, observe,
  rise_rpm, phase_command, run,
}

-- The tachometer reads between `lo` and `hi`.
abbrev pub RpmIn : ℤ → ℤ → Option ℤ → Type 0
RpmIn lo hi none = ⊥
RpmIn lo hi (some r) = (lo ≤ℤ r) × (r ≤ℤ hi)

abbrev pub near_max_rpm : F64Ops → Option ℤ → Option ℤ → Bool
near_max_rpm fl none m = false
near_max_rpm fl (some rpm) m = near_max fl rpm (positive m)

hot-not_cool :
    (hot cool t : F64) → ltb_F cool hot ≡ true → leb_F hot t ≡ true → leb_F t cool ≡ false
hot-not_cool hot cool t below h = ground arith

-- Ticks in order, at most `gap` seconds apart, the first of them after `now`.
abbrev pub Ticks : ℕ → ℕ → List Evidence → Type 0
Ticks gap now [] = Unit {0}
Ticks gap now (e ∷ es) = (now ≤ e.now_secs) × (e.now_secs ≤ now + gap) × Ticks gap e.now_secs es

abbrev pub last_time : ℕ → List Evidence → ℕ
last_time now [] = now
last_time now (e ∷ es) = last_time e.now_secs es

module _ (fl : F64Ops) (thresholds : HeatThresholds) (lo hi : ℤ) where
  -- Heat that is not answered: hot and not cooled, the fans stay between `lo` and `hi`, are not near
  -- the calibrated maximum and are not commanded to full speed.
  pub record Unheeded (e : Evidence) : Type 0 where
    pub hot : is_hot e thresholds ≡ true
    pub rpm_in : RpmIn lo hi e.rpm
    pub not_near_max : near_max_rpm fl (positive e.rpm) e.fan_max_rpm ≡ false
    pub not_full : e.commanded_full ≡ false

  not_responded_at :
      (e : Evidence) (b r : Option ℤ)
      → hi <ℤ lo +ℤ rise_rpm
      → RpmIn lo hi b
      → RpmIn lo hi r
      → near_max_rpm fl (positive r) e.fan_max_rpm ≡ false
      → e.commanded_full ≡ false
      → responded_at fl e b (positive r) ≡ false
  unfolding responded_at
  not_responded_at e none r narrow hb hr near full = absurd hb
  not_responded_at e (some q) none narrow hb hr near full = absurd hr
  not_responded_at e (some q) (some p) narrow hb hr near full =
      ground (arith, +ℤ_parts q rise_rpm, +ℤ_parts lo rise_rpm)

  Unheeded-not_responded :
      (e : Evidence) (b : Option ℤ)
      → hi <ℤ lo +ℤ rise_rpm
      → Unheeded e
      → RpmIn lo hi b
      → (responded fl e b ≡ false) × (responded fl (not_by_command e) b ≡ false)
  unfolding responded
  Unheeded-not_responded e b narrow u r = (
    not_responded_at e b e.rpm narrow r u.rpm_in u.not_near_max u.not_full,
    not_responded_at (not_by_command e) b e.rpm narrow r u.rpm_in u.not_near_max refl,
  )

  -- How far the sequence has to be at `now`, when the heat began at `start` and ticks come at most
  -- `gap` seconds apart.
  abbrev pub PhaseBy : ℕ → ℕ → ℕ → Phase → Type 0
  PhaseBy start gap now (watching since b) = (since ≡ start) × (now < start + 10) × RpmIn lo hi b
  PhaseBy start gap now answered = ⊥
  PhaseBy start gap now (firmware since b true) = ⊥
  PhaseBy start gap now (firmware since b false) =
      (since < start + 10 + gap) × (now < since + 10) × RpmIn lo hi b
  PhaseBy start gap now max_phase = Unit {0}

  advance-PhaseBy :
      (e : Evidence) (p : Phase) (start gap now : ℕ)
      → hi <ℤ lo +ℤ rise_rpm
      → Unheeded e
      → now ≤ e.now_secs
      → e.now_secs ≤ now + gap
      → PhaseBy start gap now p
      → PhaseBy start gap e.now_secs (advance fl e p).0
  unfolding advance
  advance-PhaseBy e (watching since b) start gap now narrow u late soon h =
      ground (arith, Unheeded-not_responded e b narrow u h.2, u.rpm_in)
  advance-PhaseBy e answered start gap now narrow u late soon h = h
  advance-PhaseBy e max_phase start gap now narrow u late soon h = tt
  advance-PhaseBy e (firmware since b true) start gap now narrow u late soon h = h
  advance-PhaseBy e (firmware since b false) start gap now narrow u late soon h =
      ground (arith, Unheeded-not_responded e b narrow u h.2)

  -- The checker is in an episode of these thresholds, as far as it has to be.
  data OnTime (start gap now : ℕ) : Checker → Type 0 where
    on_time :
        (ep : Episode)
        → ep.cool_below ≡ thresholds.cool_c
        → PhaseBy start gap now ep.phase
        → OnTime start gap now (some ep)

  Unheeded-not_cooled :
      (e : Evidence) (ep : Episode)
      → ltb_F thresholds.cool_c thresholds.hot_c ≡ true
      → ep.cool_below ≡ thresholds.cool_c
      → Unheeded e
      → cooled e ep ≡ false
  Unheeded-not_cooled e ep apart below u = rw below (over e.hottest_c u.hot)
    where
      over :
          (t : Option F64)
          → is_some_and t (leb_F thresholds.hot_c) ≡ true
          → is_some_and t (λ temp. leb_F temp thresholds.cool_c) ≡ false
      over none h = cc
      over (some t) h = hot-not_cool thresholds.hot_c thresholds.cool_c t apart h

  go_on-enabled :
      (e : Evidence) (ep : Episode)
      → cooled e ep ≡ false
      → (go_on fl e ep true).0 ≡ some (record ep { phase = (advance fl e ep.phase).0 })
  unfolding go_on
  go_on-enabled e ep hot = ground arith

  observe-OnTime :
      (c : Checker) (e : Evidence) (start gap now : ℕ)
      → hi <ℤ lo +ℤ rise_rpm
      → ltb_F thresholds.cool_c thresholds.hot_c ≡ true
      → Unheeded e
      → now ≤ e.now_secs
      → e.now_secs ≤ now + gap
      → OnTime start gap now c
      → OnTime start gap e.now_secs (observe fl c e thresholds true).0
  unfolding observe
  observe-OnTime c e start gap now narrow apart u late soon (on_time ep below p) =
      rw (go_on-enabled e ep (Unheeded-not_cooled e ep apart below u)) (
        on_time (record ep { phase = (advance fl e ep.phase).0 }) below
          (advance-PhaseBy e ep.phase start gap now narrow u late soon p))

  run-OnTime :
      (start gap now : ℕ) (c : Checker) (es : List Evidence)
      → hi <ℤ lo +ℤ rise_rpm
      → ltb_F thresholds.cool_c thresholds.hot_c ≡ true
      → All Unheeded es
      → Ticks gap now es
      → OnTime start gap now c
      → OnTime start gap (last_time now es) (run fl c es thresholds true)
  unfolding run
  run-OnTime start gap now c [] narrow apart u ticks t = t
  run-OnTime start gap now c (e ∷ es) narrow apart u ticks t =
      run-OnTime start gap e.now_secs (observe fl c e thresholds true).0 es narrow apart u.1 ticks.2
        (observe-OnTime c e start gap now narrow apart u.0 ticks.0 ticks.1 t)

  OnTime-max :
      (start gap now : ℕ) (c : Checker)
      → start + 20 + gap ≤ now
      → OnTime start gap now c
      → command c ≡ some max
  unfolding command
  OnTime-max start gap now c late (on_time ep below p) = at_max ep.phase p
    where
      at_max : (q : Phase) → PhaseBy start gap now q → phase_command q ≡ some max
      at_max (watching since b) h = absurd (omega arith)
      at_max answered h = absurd h
      at_max max_phase h = refl
      at_max (firmware since b true) h = absurd h
      at_max (firmware since b false) h = absurd (omega arith)

  begin-OnTime :
      (e : Evidence) (gap : ℕ)
      → Unheeded e
      → OnTime e.now_secs gap e.now_secs (observe fl none e thresholds true).0
  unfolding observe begin
  begin-OnTime e gap u = rw u.hot (on_time _ refl (refl, omega arith, u.rpm_in))

  -- With the setting on and the cool threshold under the hot one, heat that the fans do not answer ends
  -- in full speed. From a first hot tick with no episode running, if every tick is hot, they come in
  -- order and at most `gap` seconds apart, and the tachometer stays within less than 300 rpm, away from
  -- the calibrated maximum and not commanded to full, then the checker commands max once 20 + `gap`
  -- seconds have passed.
  pub Unheeded-max :
      (gap : ℕ) (e : Evidence) (es : List Evidence)
      → hi <ℤ lo +ℤ rise_rpm
      → ltb_F thresholds.cool_c thresholds.hot_c ≡ true
      → All Unheeded (e ∷ es)
      → Ticks gap e.now_secs es
      → e.now_secs + 20 + gap ≤ last_time e.now_secs es
      → command (run fl none (e ∷ es) thresholds true) ≡ some max
  unfolding run
  Unheeded-max gap e es narrow apart u ticks late =
      OnTime-max e.now_secs gap (last_time e.now_secs es) _ late (
        run-OnTime e.now_secs gap e.now_secs (observe fl none e thresholds true).0 es narrow apart
          u.1 ticks (begin-OnTime e gap u.0))
