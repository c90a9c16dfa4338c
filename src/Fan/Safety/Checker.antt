-- ===== src/Fan/Safety/Checker.antt =====
-- daemon/crates/fan/src/safety.rs: the thermal checker, the sequence that takes the fans from the
-- user's setting to the firmware and then to full speed. Times are seconds of a monotonic clock; the
-- product with the calibrated maximum is taken from `F64Ops`.
pub mod Steps
pub mod Escalation
use pyren.Base.{
  ℕ, ◌+◌, ◌-◌, ◌*◌, ◌^◌, ◌≡◌, Bool, true, false, not, ◌&&◌, ◌||◌, Option, none, some, ℤ, pos, ◌+ℤ◌,
  List, [], ◌∷◌, if◌then◌else◌, leb, ltb_ℤ, leb_ℤ, F64, F64Ops, fin, of_int, leb_F, is_some_and,
  filter_opt, unwrap_or,
}
use pyren.Fan.Mode.{FanMode, auto, max}
use pyren.Fan.Safety.Critical.{HeatThresholds}

abbrev pub answer_secs : ℕ
answer_secs = 10

abbrev pub rise_rpm : ℤ
rise_rpm = pos 300

-- The double nearest to 0.85.
abbrev near_max_fraction : F64
near_max_fraction = fin (pos (7656119366529843 * 2 ^ 1021))

pub data Phase : Type 0 where
  watching : ℕ → Option ℤ → Phase
  answered : Phase
  -- since, baseline, answered
  firmware : ℕ → Option ℤ → Bool → Phase
  max_phase : Phase

pub record Episode : Type 0 where
  pub phase : Phase
  pub cool_below : F64
  pub tripped : Bool

pub data Transition : Type 0 where
  unchanged watching_began handed_to_firmware forced_max restored : Transition

pub record Evidence : Type 0 where
  pub now_secs : ℕ
  pub hottest_c : Option F64
  pub rpm : Option ℤ
  pub fan_max_rpm : Option ℤ
  pub commanded_full : Bool

-- The checker is its `episode` field; `reset` makes it `none`.
abbrev pub Checker : Type 0
Checker = Option Episode

abbrev pub phase_command : Phase → Option FanMode
phase_command (watching _ _) = none
phase_command answered = none
phase_command (firmware _ _ _) = some auto
phase_command max_phase = some max

unfoldable pub command : Checker → Option FanMode
command none = none
command (some e) = phase_command e.phase

-- `trip`: the sequence from its second step, and what that changed.
pub trip : Checker → ℕ → Option ℤ → F64 → Checker × Transition
unfolding command
trip c now rpm cool_below = (
  some (record { phase = firmware now rpm false; cool_below = cool_below; tripped = true }),
  elim (command c) [ some _ ↦ unchanged | none ↦ handed_to_firmware ],
)

abbrev pub positive : Option ℤ → Option ℤ
positive = filter_opt (λ r. ltb_ℤ (pos 0) r)

unfoldable pub near_max : F64Ops → ℤ → Option ℤ → Bool
near_max fl rpm none = false
near_max fl rpm (some m) = leb_F (fl.mul (of_int m) near_max_fraction) (of_int rpm)

responded_at : F64Ops → Evidence → Option ℤ → Option ℤ → Bool
responded_at fl e baseline none = false
responded_at fl e baseline (some rpm) =
    e.commanded_full
    || (near_max fl rpm (positive e.fan_max_rpm)
        || leb_ℤ (unwrap_or baseline (pos 0) +ℤ rise_rpm) rpm)

pub responded : F64Ops → Evidence → Option ℤ → Bool
unfolding responded_at near_max
responded fl e baseline = responded_at fl e baseline (positive e.rpm)

abbrev pub elapsed : Evidence → ℕ → Bool
elapsed e since = leb answer_secs (e.now_secs - since)

-- The firmware has the fans, so full speed by command no longer applies.
abbrev pub not_by_command : Evidence → Evidence
not_by_command e = record e { commanded_full = false }

-- The `match episode.phase` of `observe`.
pub advance : F64Ops → Evidence → Phase → Phase × Transition
advance fl e (watching since baseline) =
    if responded fl e baseline
    then (answered, unchanged)
    else if elapsed e since
    then (firmware e.now_secs e.rpm false, handed_to_firmware)
    else (watching since baseline, unchanged)
advance fl e answered = (answered, unchanged)
advance fl e max_phase = (max_phase, unchanged)
advance fl e (firmware since baseline true) = (firmware since baseline true, unchanged)
advance fl e (firmware since baseline false) =
    if responded fl (not_by_command e) baseline
    then (firmware since baseline true, unchanged)
    else if elapsed e since
    then (max_phase, forced_max)
    else (firmware since baseline false, unchanged)

abbrev pub is_holding : Phase → Bool
is_holding (watching _ _) = false
is_holding answered = false
is_holding (firmware _ _ _) = true
is_holding max_phase = true

abbrev pub cooled : Evidence → Episode → Bool
cooled e episode = is_some_and e.hottest_c (λ temp. leb_F temp episode.cool_below)

abbrev pub is_hot : Evidence → HeatThresholds → Bool
is_hot e thresholds = is_some_and e.hottest_c (leb_F thresholds.hot_c)

pub begin : Evidence → HeatThresholds → Bool → Checker × Transition
begin e thresholds enabled =
    if enabled && is_hot e thresholds
    then (
      some (record {
        phase = watching e.now_secs e.rpm;
        cool_below = thresholds.cool_c;
        tripped = false;
      }),
      watching_began,
    )
    else (none, unchanged)

pub go_on : F64Ops → Evidence → Episode → Bool → Checker × Transition
go_on fl e episode enabled =
    if cooled e episode || (not enabled && not episode.tripped)
    then (none, if is_holding episode.phase then restored else unchanged)
    else let (phase, transition) = advance fl e episode.phase in
      (some (record episode { phase = phase }), transition)

pub observe : F64Ops → Checker → Evidence → HeatThresholds → Bool → Checker × Transition
observe fl none e thresholds enabled = begin e thresholds enabled
observe fl (some episode) e thresholds enabled = go_on fl e episode enabled

-- The checker after a run of ticks.
pub run : F64Ops → Checker → List Evidence → HeatThresholds → Bool → Checker
run fl c [] thresholds enabled = c
run fl c (e ∷ es) thresholds enabled =
    run fl (observe fl c e thresholds enabled).0 es thresholds enabled
