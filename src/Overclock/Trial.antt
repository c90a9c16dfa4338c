-- ===== src/Overclock/Trial.antt =====
-- daemon/crates/overclock/src/lib.rs and probe.rs: an applied overclock is on trial until somebody
-- confirms it. The types here; `Card` writes and verifies, `Methods` are the calls of a client,
-- `Watchdog` takes an unconfirmed change back, and `Start` is what a start of the daemon does.
-- Times are in milliseconds. The answers to clients, which print the state, are left out.
pub mod Card
pub mod Methods
pub mod Reset
pub mod Watchdog
pub mod Start
pub mod Disk
pub mod Armed
pub mod Safe
pub mod SafeReset
pub mod Crash
pub mod Choices
pub mod Chosen
pub mod Rounds
pub mod Undone
pub mod Exclusive
pub mod Applied
pub mod Returned
mod Tests
use pyren.Base.{
  ℕ, Bool, true, false, ◌||◌, Option, none, some, List, [], ◌∷◌, String, is_some, lookup, unwrap_or,
}
use pyren.Overclock.Plan.{Range, Target, Ceiling, Note, stock}

pub data Vendor : Type 0 where
  nvidia amd intel unknown : Vendor

pub record GpuProbe : Type 0 where
  pub id : String
  pub vendor : Vendor
  pub core_offset : Option Range
  pub mem_offset : Option Range
  pub clock_lock : Option Range

abbrev pub ceiling_of : GpuProbe → Ceiling
ceiling_of g = record {
  core_offset = g.core_offset;
  mem_offset = g.mem_offset;
  clock = g.clock_lock;
}

abbrev pub drivable : GpuProbe → Bool
drivable g = is_some g.core_offset || is_some g.mem_offset || is_some g.clock_lock

pub data ErrorKind : Type 0 where
  not_capable failed permission_denied io busy invalid_params internal : ErrorKind

-- What an error says, beside its kind.
pub data Reason : Type 0 where
  not_consented nothing_pending being_reverted nothing_to_tune bad_hold incomplete_lock bad_mhz :
      Reason
  pending_probe back_to_stock_failed driver_says cannot_drive : Reason
  still_pending no_such_gpu gpu_gone : String → Reason
  stopped_at : Target → Target → Reason

pub record Error : Type 0 where
  pub kind : ErrorKind
  pub reason : Reason

pub data Result {ℓ} (A : Type ℓ) : Type ℓ where
  ok : A → Result A
  err : Error → Result A

-- `?`: an error ends the call.
abbrev pub ◌>>=◌ {ℓ κ} : {V : Type ℓ} {W : Type κ} → Result V → (V → Result W) → Result W
err failure >>= next = err failure
ok value >>= next = next value

infixl 5 ◌>>=◌
abbrev pub ensure : Bool → Error → Result (Unit {0})
ensure false failure = err failure
ensure true failure = ok tt

abbrev pub ok_or {ℓ} : {A : Type ℓ} → Error → Option A → Result A
ok_or failure (some value) = ok value
ok_or failure none = err failure

pub record Consent : Type 0 where
  pub accepted_at : ℕ
  pub version : ℕ

pub record OverclockConfig : Type 0 where
  pub consent : Option Consent
  pub targets : List (String × Target)
  pub restore_on_start : Bool
  pub armed_gpu : Option String
  pub hold_secs : Option ℕ

pub data PendingPhase : Type 0 where
  coherent reverting revert_failed : PendingPhase

pub record Pending : Type 0 where
  pub generation : ℕ
  pub gpu : String
  pub revert_to : Target
  pub deadline : ℕ
  pub phase : PendingPhase

pub data RevertReason : Type 0 where
  not_confirmed undone fault_reported : RevertReason

pub data LastNote : Type 0 where
  clamped : List Note → LastNote
  kept : String → LastNote
  reverted : RevertReason → String → LastNote
  back_to_stock nothing_to_undo unconfirmed : LastNote

pub record State : Type 0 where
  pub config : OverclockConfig
  pub applied : List (String × Target)
  pub pending : Option Pending
  pub next_generation : ℕ
  pub next_retry : Option ℕ
  pub fault_watch : Bool
  pub unconfirmed_at_start : Bool
  pub last_error : Option Error
  pub last_note : Option LastNote
  pub save_failed : Bool

-- An attempt to write a target, and whether the driver took it.
pub record Attempt : Type 0 where
  pub gpu : String
  pub target : Target
  pub took : Bool

-- What the daemon has done outside itself: calls of the driver, in all and the writes among them,
-- newest first; saves, and the configuration that was saved last.
pub record World : Type 0 where
  pub calls : ℕ
  pub written : List Attempt
  pub saves : ℕ
  pub disk : Option OverclockConfig

-- What the driver and the disk answer, at each call: an error of a write, an error of a read that
-- does not match, whether faults can be watched, and whether a save succeeds.
pub record Driver : Type 0 where
  pub write : ℕ → GpuProbe → Target → Option ErrorKind
  pub verify : ℕ → GpuProbe → Target → Option ErrorKind
  pub can_watch : GpuProbe → Bool
  pub saves_at : ℕ → Bool

pub record System : Type 0 where
  pub state : State
  pub world : World

abbrev pub consent_version : ℕ
consent_version = 1

abbrev pub default_hold_secs : ℕ
default_hold_secs = 20

abbrev pub min_hold_secs : ℕ
min_hold_secs = 5

abbrev pub max_hold_secs : ℕ
max_hold_secs = 300

abbrev pub retry_ms : ℕ
retry_ms = 3000

-- `targets.get(id).unwrap_or_default()`
abbrev pub confirmed : State → String → Target
confirmed s id = unwrap_or (lookup id s.config.targets) stock

abbrev pub current : State → String → Target
current s id = unwrap_or (lookup id s.applied) (confirmed s id)
