-- ===== src/Overclock/Plan/Clamping.antt =====
-- daemon/crates/overclock/src/plan.rs: what `clamp` lets through.
use pyren.Base.{
  ◌≡◌, ◌↔◌, refl, sym, ap, arith, Bool, true, false, Option, none, some, List, [], ◌∷◌, ◌++◌,
  if◌then◌else◌, ℤ, pos, ◌≤ℤ◌, eqb_ℤ, eq_of_parts,
}
use pyren.Overclock.Plan.{
  Range, ClockLock, Target, Ceiling, Note, clamp, clamp_to, clamp_offset, clamp_lock, lock_within,
  same_lock, core_out_of_range, mem_out_of_range, no_core_offset, no_mem_offset, lock_out_of_range,
}

-- A range the right way round.
abbrev pub IsRange : Option Range → Type 0
IsRange none = Unit {0}
IsRange (some r) = r.min ≤ℤ r.max

-- A number that a knob takes; a knob that the card does not have stays at 0.
abbrev pub Takes : Option Range → ℤ → Type 0
Takes none v = v ≡ pos 0
Takes (some r) v = (r.min ≤ℤ v) × (v ≤ℤ r.max)

-- A lock that the card takes, the right way round.
abbrev pub TakesLock : Option Range → Option ClockLock → Type 0
TakesLock range none = Unit {0}
TakesLock none (some lock) = ⊥
TakesLock (some r) (some lock) =
    (r.min ≤ℤ lock.min_mhz) × (lock.min_mhz ≤ℤ lock.max_mhz) × (lock.max_mhz ≤ℤ r.max)

offset-Takes :
    (out : ℤ → Range → ℤ → Note) (missing : Note) (r : Option Range) (v : ℤ)
    → IsRange r
    → Takes r (clamp_offset out missing r v).0
unfolding clamp_offset clamp_to
offset-Takes out missing none v h = refl
offset-Takes out missing (some r) v h = ground arith

lock-TakesLock :
    (l : Option ClockLock) (r : Option Range) → IsRange r → TakesLock r (clamp_lock l r).0
unfolding clamp_lock
lock-TakesLock none r h = tt
lock-TakesLock (some l) none h = tt
lock-TakesLock (some l) (some r) h = ground arith

-- For a card whose ranges are the right way round, what `clamp` lets through is within every range
-- the card advertises, a lock is the right way round, and a knob the card does not have is left
-- alone.
pub clamp_within :
    (t : Target) (c : Ceiling)
    → IsRange c.core_offset
    → IsRange c.mem_offset
    → IsRange c.clock
    → Takes c.core_offset (clamp t c).target.core_offset_mhz
      × Takes c.mem_offset (clamp t c).target.mem_offset_mhz
      × TakesLock c.clock (clamp t c).target.core_clock
unfolding clamp
clamp_within t c a b d = (
  offset-Takes core_out_of_range no_core_offset c.core_offset t.core_offset_mhz a,
  offset-Takes mem_out_of_range no_mem_offset c.mem_offset t.mem_offset_mhz b,
  lock-TakesLock t.core_clock c.clock d,
)

no_note_if : (b : Bool) (n : Note) → ((if b then [] else n ∷ []) ≡ []) ↔ (b ≡ true)
no_note_if true n = (λ e. refl, λ e. refl)
no_note_if false n = (λ e. cc, λ e. cc)

eqb_iff : (a b : ℤ) → (eqb_ℤ a b ≡ true) ↔ (a ≡ b)
eqb_iff a b = (λ e. eq_of_parts a b (ground arith), λ e. ground arith)

quiet_iff : (a v : ℤ) (n : Note) → ((if eqb_ℤ a v then [] else n ∷ []) ≡ []) ↔ (a ≡ v)
quiet_iff a v n = (
  λ e. (eqb_iff a v).0 ((no_note_if (eqb_ℤ a v) n).0 e),
  λ e. (no_note_if (eqb_ℤ a v) n).1 ((eqb_iff a v).1 e),
)

offset_quiet :
    (out : ℤ → Range → ℤ → Note) (missing : Note) (r : Option Range) (v : ℤ)
    → ((clamp_offset out missing r v).1 ≡ []) ↔ ((clamp_offset out missing r v).0 ≡ v)
unfolding clamp_offset
offset_quiet out missing none v =
    (λ e. sym ((quiet_iff v (pos 0) missing).0 e), λ e. (quiet_iff v (pos 0) missing).1 (sym e))
offset_quiet out missing (some r) v = quiet_iff (clamp_to r v) v (out v r (clamp_to r v))

lock_eq :
    (a b : ClockLock) → eqb_ℤ a.min_mhz b.min_mhz ≡ true → eqb_ℤ a.max_mhz b.max_mhz ≡ true → a ≡ b
lock_eq a b h k = cc ((eqb_iff a.min_mhz b.min_mhz).0 h, (eqb_iff a.max_mhz b.max_mhz).0 k)

same_lock_iff : (a b : ClockLock) → (same_lock a b ≡ true) ↔ (a ≡ b)
same_lock_iff a b = (λ e. lock_eq a b (ground arith) (ground arith), λ e. ground arith)

some_iff : {a b : ClockLock} → (a ≡ b) ↔ (some a ≡ some b)
some_iff = (λ e. ap some e, λ e. cc)

lock_quiet :
    (l : Option ClockLock) (r : Option Range) → ((clamp_lock l r).1 ≡ []) ↔ ((clamp_lock l r).0 ≡ l)
unfolding clamp_lock
lock_quiet none r = (λ e. refl, λ e. refl)
lock_quiet (some l) none = (λ e. cc, λ e. cc)
lock_quiet (some l) (some r) = (
  λ e. ap some (
      (same_lock_iff (lock_within r l) l).0 (
        (no_note_if (same_lock (lock_within r l) l) (lock_out_of_range l r (lock_within r l))).0
          e)),
  λ e.
      (no_note_if (same_lock (lock_within r l) l) (lock_out_of_range l r (lock_within r l))).1
        ((same_lock_iff (lock_within r l) l).1 cc),
)

both_nil : {A : Type 0} (xs ys : List A) → (xs ++ ys ≡ []) ↔ ((xs ≡ []) × (ys ≡ []))
both_nil [] ys = (λ e. (refl, e), λ e. e.1)
both_nil (x ∷ xs) ys = (λ e. cc, λ e. cc)

target_iff :
    (core mem : ℤ) (lock : Option ClockLock) (t : Target)
    → ((core ≡ t.core_offset_mhz) × (mem ≡ t.mem_offset_mhz) × (lock ≡ t.core_clock))
      ↔ (record { core_offset_mhz = core; mem_offset_mhz = mem; core_clock = lock } ≡ t)
target_iff core mem lock t = (
  λ e. cc,
  λ e. (ap (λ x. x.core_offset_mhz) e, ap (λ x. x.mem_offset_mhz) e, ap (λ x. x.core_clock) e),
)

-- `clamp` has no note exactly when it changes nothing.
pub clamp-notes_iff :
    (t : Target) (c : Ceiling) → ((clamp t c).notes ≡ []) ↔ ((clamp t c).target ≡ t)
unfolding clamp
clamp-notes_iff t c = (quiet_same, same_quiet)
  where
    core : ℤ × List Note
    core = clamp_offset core_out_of_range no_core_offset c.core_offset t.core_offset_mhz

    mem : ℤ × List Note
    mem = clamp_offset mem_out_of_range no_mem_offset c.mem_offset t.mem_offset_mhz

    lock : Option ClockLock × List Note
    lock = clamp_lock t.core_clock c.clock

    core_quiet : (core.1 ≡ []) ↔ (core.0 ≡ t.core_offset_mhz)
    core_quiet = offset_quiet core_out_of_range no_core_offset c.core_offset t.core_offset_mhz

    mem_quiet : (mem.1 ≡ []) ↔ (mem.0 ≡ t.mem_offset_mhz)
    mem_quiet = offset_quiet mem_out_of_range no_mem_offset c.mem_offset t.mem_offset_mhz

    quiet_same : (core.1 ++ mem.1 ++ lock.1 ≡ []) → (clamp t c).target ≡ t
    quiet_same e =
        let both = (both_nil (core.1 ++ mem.1) lock.1).0 e in
        let offsets = (both_nil core.1 mem.1).0 both.0 in
        (target_iff core.0 mem.0 lock.0 t).0 (
          core_quiet.0 offsets.0,
          mem_quiet.0 offsets.1,
          (lock_quiet t.core_clock c.clock).0 both.1,
        )

    same_quiet : (clamp t c).target ≡ t → (core.1 ++ mem.1 ++ lock.1 ≡ [])
    same_quiet e =
        let parts = (target_iff core.0 mem.0 lock.0 t).1 e in
        (both_nil (core.1 ++ mem.1) lock.1).1 (
          (both_nil core.1 mem.1).1 (core_quiet.1 parts.0, mem_quiet.1 parts.1),
          (lock_quiet t.core_clock c.clock).1 parts.2,
        )
