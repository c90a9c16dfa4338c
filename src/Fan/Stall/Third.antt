-- ===== src/Fan/Stall/Third.antt =====
-- When the watch of daemon/crates/fan/src/stall.rs has seen enough to ask for a raise.
use pyren.Base.{
  ℕ, ◌+◌, ◌-◌, ◌≤◌, ◌≡◌, ◌≢◌, ◌⊎◌, inl, inr, refl, Bool, true, false, not, ◌&&◌, List, [], ◌∷◌, sym,
  subst, ◌++◌, Option, none, some, arith, length, All, ℤ, pos, leb, leb_ℤ, if◌then◌else◌,
  Bool-cases, ltb, is_some_and,
}
use pyren.Fan.Stall.{
  StallWatch, Tick, quiet, fault, raise_floor, raise_cooldown_secs, window_secs, trigger, prune,
  cooling, stalled, count_fault, observe, Turn, watched, unwatched, time, act, turn, raises, idle,
}
use pyren.Fan.Stall.Window.{Inv, observe-Inv}
use pyren.Fan.Stall.Raises.{InOrder, idle-Inv, observe-last_raise}

-- A steady tick with a speed to expect, that measures less than half of it.
abbrev pub is_stall : Turn → Bool
is_stall (watched now expected measured steady) =
    steady && not (leb_ℤ expected (pos 0)) && stalled expected measured
is_stall (unwatched now) = false

unfoldable pub stalls : List Turn → ℕ
stalls [] = 0
stalls (t ∷ ts) = if is_stall t then stalls ts + 1 else stalls ts

-- The faults from `from` on.
recent : ℕ → List ℕ → ℕ
recent from [] = 0
recent from (t ∷ ts) = if leb from t then recent from ts + 1 else recent from ts

recent-length : (from : ℕ) (ts : List ℕ) → recent from ts ≤ length ts
unfolding recent
recent-length from [] = omega arith
recent-length from (t ∷ ts) = ground (arith, recent-length from ts)

recent-append :
    (from now : ℕ) (ts : List ℕ) → from ≤ now → recent from (ts ++ now ∷ []) ≡ recent from ts + 1
unfolding recent
recent-append from now [] h = ground arith
recent-append from now (t ∷ ts) h = ground (arith, recent-append from now ts h)

recent-prune :
    (from now : ℕ) (ts : List ℕ)
    → now ≤ from + window_secs
    → recent from (prune now ts) ≡ recent from ts
unfolding recent prune
recent-prune from now [] h = refl
recent-prune from now (t ∷ ts) h = ground (arith, recent-prune from now ts h)

-- The cooldown of the last raise, if there was one, is over at `from`.
abbrev pub IsCooled : ℕ → StallWatch → Type 0
IsCooled from w =
    is_some_and w.last_raise (λ raised. ltb from (raised + raise_cooldown_secs)) ≡ false

cooled-later :
    (w : StallWatch) (from now : ℕ) → from ≤ now → IsCooled from w → cooling w now ≡ false
unfolding cooling
cooled-later w from now h c = go w.last_raise c
  where
    go :
        (o : Option ℕ)
        → is_some_and o (λ raised. ltb from (raised + raise_cooldown_secs)) ≡ false
        → is_some_and o (λ raised. ltb (now - raised) raise_cooldown_secs) ≡ false
    go none c = refl
    go (some raised) c = ground arith

is_raise : Tick → Bool
is_raise quiet = false
is_raise (fault n) = false
is_raise (raise_floor n) = true

count_fault-step :
    (w : StallWatch) (from now : ℕ)
    → from ≤ now
    → cooling w now ≡ false
    → (is_raise (count_fault w now).1 ≡ true)
      ⊎ (recent from w.faults + 1 ≤ recent from (count_fault w now).0.faults)
unfolding count_fault is_raise
count_fault-step w from now h c = elim (Bool-cases (ltb (length (w.faults ++ now ∷ [])) trigger)) [
  | inl few ↦ inr (rw few (omega (arith, recent-append from now w.faults h)))
  | inr enough ↦ inl (rw (enough, c) refl)
]

observe-step :
    (w : StallWatch) (from now : ℕ) (expected measured : ℤ) (steady : Bool)
    → from ≤ now
    → now ≤ from + window_secs
    → IsCooled from w
    → let r = observe w now expected measured steady in
      (is_raise r.1 ≡ true)
      ⊎ (recent from w.faults + (if is_stall (watched now expected measured steady) then 1 else 0)
          ≤ recent from r.0.faults)
unfolding observe
observe-step w from now expected measured steady h k c =
    let w' : StallWatch = record w { faults = prune now w.faults; last_rpm = some measured } in
    ground (
      arith,
      count_fault-step w' from now h (cooled-later w' from now h c),
      recent-prune from now w.faults k,
    )

-- The turns are in order from `from` on, and within half an hour of it.
abbrev pub Within : ℕ → List Turn → Type 0
Within from ts = All (λ t. time t ≤ from + window_secs) ts

act-raised :
    (now : ℕ) (r : StallWatch × Tick) (rest : List ℕ)
    → is_raise r.1 ≡ true
    → (act now r).1 ++ rest ≢ []
unfolding is_raise
act-raised now (w, quiet) rest h = λ e. cc
act-raised now (w, fault n) rest h = λ e. cc
act-raised now (w, raise_floor n) rest h = λ e. cc

act-kept : (now : ℕ) (r : StallWatch × Tick) → is_raise r.1 ≡ false → act now r ≡ (r.0, [])
unfolding is_raise
act-kept now (w, quiet) h = refl
act-kept now (w, fault n) h = refl
act-kept now (w, raise_floor n) h = cc

stalls-raises :
    (w : StallWatch) (from now : ℕ) (ts : List Turn)
    → from ≤ now
    → Inv now w
    → IsCooled from w
    → InOrder now ts
    → Within from ts
    → 3 ≤ recent from w.faults + stalls ts
    → raises w ts ≢ []
unfolding raises turn stalls idle
stalls-raises w from now [] h v c o i e = ground (arith, v.bounded, recent-length from w.faults)
stalls-raises w from now (unwatched later ∷ ts) h v c o i e =
    stalls-raises (idle w) from later ts (omega (arith, o.0)) (idle-Inv now later w o.0 v) c o.1 i.1
      e
stalls-raises w from now (watched later expected measured steady ∷ ts) h v c o i e =
    elim (Bool-cases (is_raise r.1)) [
      | inl raised ↦ act-raised later r (raises (act later r).0 ts) raised
      | inr none_yet ↦
          subst (λ x. x.1 ++ raises x.0 ts ≢ []) (sym (act-kept later r none_yet))
            (stalls-raises r.0 from later ts (omega (arith, o.0))
              (observe-Inv w now later expected measured steady o.0 v)
              (subst (λ l. is_some_and l (λ at. ltb from (at + raise_cooldown_secs)) ≡ false)
                (sym (observe-last_raise w later expected measured steady)) c)
              o.1 i.1
              (more none_yet
                (observe-step w from later expected measured steady (omega (arith, o.0)) i.0 c)))
    ]
  where
    r : StallWatch × Tick
    r = observe w later expected measured steady

    more :
        is_raise r.1 ≡ false
        → (is_raise r.1 ≡ true)
          ⊎ (recent from w.faults
                + (if is_stall (watched later expected measured steady) then 1 else 0)
              ≤ recent from r.0.faults)
        → 3 ≤ recent from r.0.faults + stalls ts
    more none_yet (inl raised) = cc
    more none_yet (inr k) = ground (arith, e)

-- A fan that keeps stalling has its floor raised. Take a watch that remembers fewer than three
-- faults, in order of time, and no fault or raise after `from`, and whose last raise, if there was
-- one, is 300 seconds or more before `from`; and any run of turns, watched or not, in order from
-- `from` on and within half an hour of it. If at least three of them are stalls, each a steady tick
-- that expects a speed above zero and measures less than half of it, the floor is raised in the run.
pub third_stall-raises :
    (w : StallWatch) (from : ℕ) (ts : List Turn)
    → Inv from w
    → IsCooled from w
    → InOrder from ts
    → Within from ts
    → 3 ≤ stalls ts
    → raises w ts ≢ []
third_stall-raises w from ts v c o i e =
    stalls-raises w from from ts (omega arith) v c o i (omega (arith, e))
