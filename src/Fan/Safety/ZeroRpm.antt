-- ===== src/Fan/Safety/ZeroRpm.antt =====
-- daemon/crates/fan/src/safety.rs: the watch for a real speed commanded and nothing turning.
use pyren.Base.{
  ℕ, ◌-◌, ◌≡◌, refl, Bool, true, false, ◌&&◌, List, [], ◌∷◌, Option, none, some, ℤ, pos,
  if◌then◌else◌, leb, eqb_ℤ, All, is_some_and, unwrap_or,
}

abbrev pub stall_min_pwm : ℕ
stall_min_pwm = 128

abbrev pub stall_secs : ℕ
stall_secs = 10

-- One tick: the time, the speed commanded and the tachometer, where they are known.
pub record Look : Type 0 where
  pub now : ℕ
  pub pwm : Option ℕ
  pub rpm : Option ℤ

abbrev pub stalled_now : Look → Bool
stalled_now l =
    is_some_and l.pwm (λ p. leb stall_min_pwm p) && is_some_and l.rpm (λ r. eqb_ℤ r (pos 0))

-- The watch is its `since` field; `reset` makes it `none`. The answer comes second.
unfoldable pub observe : Option ℕ → Look → Option ℕ × Bool
observe since l =
    if stalled_now l
    then (let at : ℕ = unwrap_or since l.now in (some at, leb stall_secs (l.now - at)))
    else (none, false)

-- The answers to a run of looks, with the watch that is left.
pub run : Option ℕ → List Look → Option ℕ × List Bool
run since [] = (since, [])
run since (l ∷ ls) =
    let (since', answer) = observe since l in
    let (since'', answers) = run since' ls in (since'', answer ∷ answers)

-- In a run of looks that all show the stall the answer is yes exactly from ten seconds after the
-- watch first saw it.
abbrev pub elapsed : ℕ → List Look → List Bool
elapsed at [] = []
elapsed at (l ∷ ls) = leb stall_secs (l.now - at) ∷ elapsed at ls

run_from :
    (at : ℕ) (ls : List Look)
    → All (λ l. stalled_now l ≡ true) ls
    → run (some at) ls ≡ (some at, elapsed at ls)
unfolding run observe
run_from at [] h = refl
run_from at (l ∷ ls) h = rw (h.0, run_from at ls h.1)

-- From a reset watch, an unbroken run of stalled looks is answered by yes exactly at those looks that
-- come ten seconds or more after the first.
pub stalled_run :
    (l : Look) (ls : List Look)
    → All (λ k. stalled_now k ≡ true) (l ∷ ls)
    → (run none (l ∷ ls)).1 ≡ elapsed l.now (l ∷ ls)
unfolding run observe
stalled_run l ls h = rw (h.0, run_from l.now ls h.1)

-- A look that shows no stall is answered by no, and the count starts over: what follows is answered
-- as from a reset watch.
pub turning-resets :
    (since : Option ℕ) (l : Look) (ls : List Look)
    → stalled_now l ≡ false
    → (run since (l ∷ ls)).1 ≡ false ∷ (run none ls).1
unfolding run observe
turning-resets since l ls h = rw h
