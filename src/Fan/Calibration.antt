-- ===== src/Fan/Calibration.antt =====
-- daemon/crates/fan/src/calibration.rs: what a run at full speed, and the one at the slowest speed
-- after it, may conclude from their samples. The sentences for people are left out, and so are the
-- fields that the caller fills in.
pub mod Verdicts
mod Tests
use pyren.Base.{
  ℕ, suc, ◌+◌, Bool, true, false, not, ◌&&◌, ◌||◌, Option, none, some, List, [], ◌∷◌, ◌++◌, ltb,
  leb, if◌then◌else◌, map, ℤ, pos, ◌+ℤ◌, ◌-ℤ◌, leb_ℤ, ltb_ℤ, max_ℤ, min_ℤ, wrap_i64,
}

abbrev pub max_seconds : ℕ
max_seconds = 120

abbrev pub min_seconds : ℕ
min_seconds = 10

abbrev pub settled_rise_rpm : ℤ
settled_rise_rpm = pos 50

abbrev pub settled_samples : ℕ
settled_samples = 5

abbrev pub min_rise_rpm : ℤ
min_rise_rpm = pos 300

pub record Sample : Type 0 where
  pub at_secs : ℕ
  pub fan1_rpm : ℤ
  pub fan2_rpm : ℤ
  pub is_reverse : Bool

abbrev pub faster : Sample → ℤ
faster s = max_ℤ s.fan1_rpm s.fan2_rpm

pub data Verdict : Type 0 where
  measured no_reading did_not_respond reverse : Verdict

abbrev pub worth_storing : Verdict → Bool
worth_storing measured = true
worth_storing no_reading = false
worth_storing did_not_respond = false
worth_storing reverse = false

pub record Calibration : Type 0 where
  pub verdict : Verdict
  pub fan_max_rpm : Option ℤ
  pub fan1_max_rpm : Option ℤ
  pub fan2_max_rpm : Option ℤ
  pub baseline_rpm : ℤ
  pub started_at_max : Bool
  pub seconds : ℕ
  pub settled : Bool
  pub samples : List Sample

pub record Run : Type 0 where
  pub baseline : ℤ
  pub started_at_max : Bool
  pub limit_secs : ℕ
  pub samples : List Sample
  pub peak : ℤ
  pub flat_for : ℕ
  pub saw_reverse : Bool

abbrev pub clamp_secs : ℕ → ℕ
clamp_secs n =
    if ltb n min_seconds then min_seconds else if ltb max_seconds n then max_seconds else n

unfoldable pub new : ℤ → Bool → ℕ → Run
new baseline started_at_max limit_secs = record {
  baseline = baseline;
  started_at_max = started_at_max;
  limit_secs = clamp_secs limit_secs;
  samples = [];
  peak = pos 0;
  flat_for = 0;
  saw_reverse = false;
}

unfoldable pub push : Run → Sample → Run
push r s = record r {
  flat_for = if ltb_ℤ (wrap_i64 (r.peak +ℤ settled_rise_rpm)) (faster s) then 0 else suc r.flat_for;
  peak = max_ℤ r.peak (faster s);
  saw_reverse = r.saw_reverse || s.is_reverse;
  samples = r.samples ++ (s ∷ []);
}

abbrev pub is_settled : Run → ℕ → Bool
is_settled r elapsed = leb min_seconds elapsed && leb settled_samples r.flat_for

unfoldable pub is_done : Run → ℕ → Bool
is_done r elapsed = leb r.limit_secs elapsed || is_settled r elapsed

-- `iter().max()`, and nothing that is not above 0.
abbrev pub highest : ℤ → List ℤ → ℤ
highest top [] = top
highest top (x ∷ xs) = highest (max_ℤ top x) xs

abbrev pub above_zero : ℤ → Option ℤ
above_zero a = if ltb_ℤ (pos 0) a then some a else none

abbrev pub peak_of : List ℤ → Option ℤ
peak_of [] = none
peak_of (x ∷ xs) = above_zero (highest x xs)

pub verdict_of : Run → Verdict
verdict_of r =
    if leb_ℤ r.peak (pos 0)
    then no_reading
    else if r.saw_reverse
    then reverse
    else if not r.started_at_max && ltb_ℤ (wrap_i64 (r.peak -ℤ r.baseline)) min_rise_rpm
    then did_not_respond
    else measured

pub finish : Run → ℕ → Calibration
unfolding verdict_of
finish r elapsed =
    let stored = worth_storing (verdict_of r) in
    record {
      verdict = verdict_of r;
      fan_max_rpm = if stored then some r.peak else none;
      fan1_max_rpm = if stored then peak_of (map (λ s. s.fan1_rpm) r.samples) else none;
      fan2_max_rpm = if stored then peak_of (map (λ s. s.fan2_rpm) r.samples) else none;
      baseline_rpm = r.baseline;
      started_at_max = r.started_at_max;
      seconds = elapsed;
      settled = is_settled r elapsed;
      samples = r.samples;
    }

pub record FloorRun : Type 0 where
  pub limit_secs : ℕ
  pub samples : List Sample
  pub low : Option ℤ
  pub flat_for : ℕ
  pub saw_reverse : Bool

pub new_floor : ℕ → FloorRun
new_floor limit_secs = record {
  limit_secs = clamp_secs limit_secs;
  samples = [];
  low = none;
  flat_for = 0;
  saw_reverse = false;
}

abbrev pub not_falling : Option ℤ → ℤ → Bool
not_falling none x = false
not_falling (some low) x = leb_ℤ (wrap_i64 (low -ℤ settled_rise_rpm)) x

abbrev pub lowered : Option ℤ → ℤ → ℤ
lowered none x = x
lowered (some low) x = min_ℤ low x

pub push_floor : FloorRun → Sample → FloorRun
push_floor r s = record r {
  flat_for = if not_falling r.low (faster s) then suc r.flat_for else 0;
  low = some (lowered r.low (faster s));
  saw_reverse = r.saw_reverse || s.is_reverse;
  samples = r.samples ++ (s ∷ []);
}

unfoldable pub floor_done : FloorRun → ℕ → Bool
floor_done r elapsed =
    leb r.limit_secs elapsed || (leb min_seconds elapsed && leb settled_samples r.flat_for)

abbrev pub last_sample : List Sample → Option Sample
last_sample [] = none
last_sample (s ∷ []) = some s
last_sample (s ∷ t ∷ ts) = last_sample (t ∷ ts)

abbrev pub rest_of : ℤ → Option Sample → Option ℤ
rest_of peak none = none
rest_of peak (some s) =
    if leb_ℤ min_rise_rpm (wrap_i64 (peak -ℤ faster s)) then some (faster s) else none

pub finish_floor : FloorRun → ℤ → Option ℤ
finish_floor r peak = if r.saw_reverse then none else rest_of peak (last_sample r.samples)
