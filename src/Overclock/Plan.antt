-- ===== src/Overclock/Plan.antt =====
-- daemon/crates/overclock/src/plan.rs: what is asked for, what the card takes, and the way there.
-- An `i32` is an integer; sums and differences wrap.
pub mod Clamping
pub mod Climbing
mod Tests
use pyren.Base.{
  ℕ, zero, suc, ◌+◌, Bool, true, false, not, ◌&&◌, ◌||◌, Option, none, some, List, [], ◌∷◌, ◌++◌,
  ltb, leb, if◌then◌else◌, map_opt, ℤ, pos, negsuc, ◌+ℤ◌, ◌-ℤ◌, scale, leb_ℤ, ltb_ℤ, eqb_ℤ, max_ℤ,
  clamp_ℤ, abs, wrap_i32,
}

abbrev pub core_step_mhz : ℕ
core_step_mhz = 15

abbrev pub mem_step_mhz : ℕ
mem_step_mhz = 50

pub record Range : Type 0 where
  pub min : ℤ
  pub max : ℤ

-- `i32::clamp` wants `min <= max`.
unfoldable pub clamp_to : Range → ℤ → ℤ
clamp_to r value = clamp_ℤ r.min r.max value

unfoldable pub contains : Range → ℤ → Bool
contains r value = leb_ℤ r.min value && leb_ℤ value r.max

pub record ClockLock : Type 0 where
  pub min_mhz : ℤ
  pub max_mhz : ℤ

pub record Target : Type 0 where
  pub core_offset_mhz : ℤ
  pub mem_offset_mhz : ℤ
  pub core_clock : Option ClockLock

abbrev pub stock : Target
stock = record { core_offset_mhz = pos 0; mem_offset_mhz = pos 0; core_clock = none }

abbrev pub same_lock : ClockLock → ClockLock → Bool
same_lock a b = eqb_ℤ a.min_mhz b.min_mhz && eqb_ℤ a.max_mhz b.max_mhz

abbrev pub no_lock : Option ClockLock → Bool
no_lock none = true
no_lock (some _) = false

abbrev pub same_locks : Option ClockLock → Option ClockLock → Bool
same_locks none none = true
same_locks none (some _) = false
same_locks (some _) none = false
same_locks (some a) (some b) = same_lock a b

-- `a == b`
abbrev pub same_target : Target → Target → Bool
same_target a b =
    eqb_ℤ a.core_offset_mhz b.core_offset_mhz
    && eqb_ℤ a.mem_offset_mhz b.mem_offset_mhz
    && same_locks a.core_clock b.core_clock

unfoldable pub is_stock : Target → Bool
is_stock t =
    eqb_ℤ t.core_offset_mhz (pos 0) && eqb_ℤ t.mem_offset_mhz (pos 0) && no_lock t.core_clock

pub record Ceiling : Type 0 where
  pub core_offset : Option Range
  pub mem_offset : Option Range
  pub clock : Option Range

-- The messages of `clamp`, with their numbers.
pub data Note : Type 0 where
  core_out_of_range mem_out_of_range : ℤ → Range → ℤ → Note
  lock_out_of_range : ClockLock → Range → ClockLock → Note
  no_core_offset no_mem_offset no_clock_lock : Note

pub record Clamped : Type 0 where
  pub target : Target
  pub notes : List Note

-- One offset: what it becomes, and the note.
unfoldable pub clamp_offset : (ℤ → Range → ℤ → Note) → Note → Option Range → ℤ → ℤ × List Note
unfolding clamp_to
clamp_offset out missing (some range) requested =
    let used = clamp_to range requested in
    (used, if eqb_ℤ used requested then [] else out requested range used ∷ [])
clamp_offset out missing none requested =
    (pos 0, if eqb_ℤ requested (pos 0) then [] else missing ∷ [])

abbrev pub lock_within : Range → ClockLock → ClockLock
lock_within range lock = record {
  min_mhz = clamp_ℤ range.min range.max lock.min_mhz;
  max_mhz =
      max_ℤ (clamp_ℤ range.min range.max lock.max_mhz) (clamp_ℤ range.min range.max lock.min_mhz);
}

unfoldable pub clamp_lock : Option ClockLock → Option Range → Option ClockLock × List Note
clamp_lock (some lock) (some range) =
    let used = lock_within range lock in
    (some used, if same_lock used lock then [] else lock_out_of_range lock range used ∷ [])
clamp_lock (some lock) none = (none, no_clock_lock ∷ [])
clamp_lock none range = (none, [])

unfoldable pub clamp : Target → Ceiling → Clamped
unfolding clamp_offset clamp_lock
clamp request ceiling =
    let core =
      clamp_offset core_out_of_range no_core_offset ceiling.core_offset request.core_offset_mhz in
    let mem =
      clamp_offset mem_out_of_range no_mem_offset ceiling.mem_offset request.mem_offset_mhz in
    let lock = clamp_lock request.core_clock ceiling.clock in
    record {
      target = record { core_offset_mhz = core.0; mem_offset_mhz = mem.0; core_clock = lock.0 };
      notes = core.1 ++ mem.1 ++ lock.1;
    }

abbrev pub signum : ℤ → ℤ
signum a = if ltb_ℤ (pos 0) a then pos 1 else if ltb_ℤ a (pos 0) then negsuc 0 else pos 0

-- `distance.abs() <= step`; the absolute value of the least `i32` is itself.
unfoldable pub step_towards : ℤ → ℤ → ℕ → ℤ
step_towards from to step =
    let distance = wrap_i32 (to -ℤ from) in
    if leb_ℤ (wrap_i32 (pos (abs distance))) (pos step)
    then to
    else wrap_i32 (from +ℤ scale step (signum distance))

abbrev pub arrived : Target → Target → Bool
arrived current to =
    eqb_ℤ current.core_offset_mhz to.core_offset_mhz
    && eqb_ℤ current.mem_offset_mhz to.mem_offset_mhz

abbrev pub next_towards : Target → Target → Target
next_towards current to = record current {
  core_offset_mhz = step_towards current.core_offset_mhz to.core_offset_mhz core_step_mhz;
  mem_offset_mhz = step_towards current.mem_offset_mhz to.mem_offset_mhz mem_step_mhz;
}

-- The loop of `ramp` on fuel; `none` when that runs out.
unfoldable pub climb : ℕ → Target → Target → Option (List Target)
unfolding step_towards
climb zero current to = if arrived current to then some [] else none
climb (suc fuel) current to =
    let next = next_towards current to in
    let rest = climb fuel next to in
    if arrived current to then some [] else map_opt (λ steps. next ∷ steps) rest

-- `steps.last_mut()`: the last step also sets the clock lock.
abbrev pub lock_last : Target → List Target → Target → List Target
lock_last t [] to = record t { core_clock = to.core_clock } ∷ []
lock_last t (u ∷ us) to = t ∷ lock_last u us to

abbrev pub finished : List Target → Target → List Target
finished [] to = to ∷ []
finished (t ∷ ts) to = lock_last t ts to

unfoldable pub ramp : ℕ → Target → Target → Option (List Target)
unfolding climb
ramp fuel from to = map_opt (λ steps. finished steps to) (climb fuel from to)
