-- ===== src/Overclock/Trial/Methods.antt =====
-- daemon/crates/overclock/src/lib.rs: the calls of a client. A call is an error or none.
use pyren.Base.{
  ℕ, ◌+◌, ◌*◌, ◌%◌, ◌^◌, Bool, Option, none, some, List, [], ◌∷◌, String, str_eq, insert,
  is_some_and, unwrap_or, if◌then◌else◌, ltb, ◌==◌, ℤ, pos, negsuc,
}
use pyren.Overclock.Plan.{Target, ClockLock, Clamped, Note, is_stock, same_target, clamp}
use pyren.Overclock.Trial.{
  GpuProbe, ceiling_of, drivable, ErrorKind, not_capable, busy, invalid_params, Reason,
  not_consented, nothing_to_tune, bad_hold, incomplete_lock, bad_mhz, cannot_drive, still_pending,
  no_such_gpu, Error, Result, ok, err, ◌>>=◌, ensure, ok_or, OverclockConfig, coherent, Pending,
  LastNote, clamped, State, World, Driver, System, consent_version, default_hold_secs,
  min_hold_secs, max_hold_secs, confirmed, current,
}
use pyren.Overclock.Trial.Card.{climb, persist}

-- A JSON value where a number is wanted.
pub data Number : Type 0 where
  whole_number : ℤ → Number
  no_number : Number

-- `params.get("clockLock")`, with its two ends.
pub data LockParam : Type 0 where
  absent null_lock : LockParam
  lock_of : Option Number → Option Number → LockParam

pub record Request : Type 0 where
  pub gpu : Option String
  pub core_offset : Option Number
  pub mem_offset : Option Number
  pub clock_lock : LockParam
  pub hold : Option Number

abbrev pub error : ErrorKind → Reason → Error
error k r = record { kind = k; reason = r }

abbrev pub find_gpu : String → List GpuProbe → Option GpuProbe
find_gpu id [] = none
find_gpu id (g ∷ gs) = if str_eq g.id id then some g else find_gpu id gs

abbrev pub default_gpu : List GpuProbe → Option GpuProbe
default_gpu [] = none
default_gpu (g ∷ gs) = if drivable g then some g else default_gpu gs

unfoldable pub requested_gpu : List GpuProbe → Option String → Result GpuProbe
requested_gpu probe none = ok_or (error not_capable nothing_to_tune) (default_gpu probe)
requested_gpu probe (some id) = ok_or (error invalid_params (no_such_gpu id)) (find_gpu id probe)

abbrev pub clamp_hold : ℕ → ℕ
clamp_hold n =
    if ltb n min_hold_secs then min_hold_secs else if ltb max_hold_secs n then max_hold_secs else n

unfoldable pub hold_secs : OverclockConfig → ℕ
hold_secs c = clamp_hold (unwrap_or c.hold_secs default_hold_secs)

unfoldable pub hold_from : OverclockConfig → Option Number → Result ℕ
unfolding hold_secs
hold_from c none = ok (hold_secs c)
hold_from c (some no_number) = err (error invalid_params bad_hold)
hold_from c (some (whole_number (negsuc n))) = err (error invalid_params bad_hold)
hold_from c (some (whole_number (pos n))) = ok (clamp_hold n)

-- `i32::try_from`
unfoldable pub as_mhz : Number → Result ℤ
as_mhz no_number = err (error invalid_params bad_mhz)
as_mhz (whole_number (pos n)) =
    if ltb n 2147483648 then ok (pos n) else err (error invalid_params bad_mhz)
as_mhz (whole_number (negsuc n)) =
    if ltb n 2147483648 then ok (negsuc n) else err (error invalid_params bad_mhz)

abbrev pub as_mhz_or : ℤ → Option Number → Result ℤ
as_mhz_or old none = ok old
as_mhz_or old (some v) = as_mhz v

unfoldable pub merge_lock : Option ClockLock → LockParam → Result (Option ClockLock)
unfolding as_mhz
merge_lock old absent = ok old
merge_lock old null_lock = ok none
merge_lock old (lock_of lo hi) = do
  lo' ← ok_or (error invalid_params incomplete_lock) lo
  hi' ← ok_or (error invalid_params incomplete_lock) hi
  low ← as_mhz lo'
  high ← as_mhz hi'
  ok (some (record { min_mhz = low; max_mhz = high }))

unfoldable pub merge : Request → Target → Result Target
unfolding merge_lock
merge r old = do
  core ← as_mhz_or old.core_offset_mhz r.core_offset
  mem ← as_mhz_or old.mem_offset_mhz r.mem_offset
  lock ← merge_lock old.core_clock r.clock_lock
  ok (record { core_offset_mhz = core; mem_offset_mhz = mem; core_clock = lock })

abbrev pub has_consent : OverclockConfig → Bool
has_consent c = is_some_and c.consent (λ x. x.version == consent_version)

-- An apply whose checks are passed.
pub record Prepared : Type 0 where
  pub gpu : GpuProbe
  pub hold : ℕ
  pub from : Target
  pub result : Clamped

abbrev pub not_pending : Option Pending → Result (Unit {0})
not_pending none = ok tt
not_pending (some p) = err (error busy (still_pending p.gpu))

-- The checks of `apply`, in its order.
unfoldable pub prepare : List GpuProbe → Request → State → Result Prepared
unfolding requested_gpu hold_from merge
prepare probe r s = do
  gpu ← requested_gpu probe r.gpu
  hold ← hold_from s.config r.hold
  _ ← ensure (has_consent s.config) (error invalid_params not_consented)
  _ ← not_pending s.pending
  _ ← ensure (drivable gpu) (error not_capable cannot_drive)
  wanted ← merge r (current s gpu.id)
  ok (record {
    gpu = gpu;
    hold = hold;
    from = current s gpu.id;
    result = clamp wanted (ceiling_of gpu);
  })

-- `Msg::join`
abbrev pub note_of : List Note → Option LastNote
note_of [] = none
note_of (n ∷ ns) = some (clamped (n ∷ ns))

-- `wrapping_add(1)` of `u64`.
abbrev pub next_number : ℕ → ℕ
next_number n = (n + 1) % 2 ^ 64

abbrev pub armed : Driver → Prepared → ℕ → State → State
armed d p now s = record s {
  pending = some (record {
    generation = next_number s.next_generation;
    gpu = (p.gpu).id;
    revert_to = confirmed s (p.gpu).id;
    deadline = now + p.hold * 1000;
    phase = coherent;
  });
  next_generation = next_number s.next_generation;
  next_retry = none;
  fault_watch = d.can_watch p.gpu;
  config = record s.config { armed_gpu = some (p.gpu).id; hold_secs = some p.hold };
}

abbrev pub at_stock : Prepared → State → State
at_stock p s = record s {
  config = record s.config {
    targets = insert (p.gpu).id (p.result).target s.config.targets;
    armed_gpu = none;
  };
}

abbrev pub noted : Prepared → State → State
noted p s = record s {
  applied = insert (p.gpu).id (p.result).target s.applied;
  last_error = none;
  last_note = note_of (p.result).notes;
}

-- The state after a climb that went through.
unfoldable pub taken : Driver → Prepared → ℕ → State → State
taken d p now s =
    if is_stock (p.result).target then at_stock p (noted p s) else armed d p now (noted p s)

abbrev pub climbed : Driver → Prepared → ℕ → State → World × Option Error → System × Option Error
climbed d p now s (w, some e) =
    (record { state = record s { last_error = some e }; world = w }, some e)
climbed d p now s (w, none) = (persist d (record { state = taken d p now s; world = w }), none)

unfoldable pub apply_prepared : Driver → Prepared → ℕ → System → System × Option Error
apply_prepared d p now s =
    if same_target (p.result).target p.from
    then (record s { state = record s.state { last_note = note_of (p.result).notes } }, none)
    else climbed d p now s.state (climb d p.gpu p.from (p.result).target s.world)

abbrev pub apply_result : Driver → ℕ → System → Result Prepared → System × Option Error
apply_result d now s (err e) = (s, some e)
apply_result d now s (ok p) = apply_prepared d p now s

unfoldable pub apply : Driver → List GpuProbe → Request → ℕ → System → System × Option Error
apply d probe r now s = apply_result d now s (prepare probe r s.state)
