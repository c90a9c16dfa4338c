-- ===== src/Fan/Safety/Critical.antt =====
-- daemon/crates/fan/src/safety.rs: the critical latch, and the pair of thresholds of the checker.
use pyren.Base.{
  ◌≡◌, refl, Bool, true, false, ◌&&◌, List, [], ◌∷◌, ◌++◌, Option, none, some, if◌then◌else◌, F64,
  unit_pos, whole, is_finite, leb_F, ltb_F, arith, All, is_some_and,
}

abbrev pub critical_c : F64
critical_c = whole 90

abbrev pub critical_clear_c : F64
critical_clear_c = whole 80

-- The latch is its `active` field.
unfoldable pub observe : Bool → Option F64 → Bool
observe active none = active
observe active (some temp) =
    if leb_F critical_c temp then true else if ltb_F temp critical_clear_c then false else active

pub run : Bool → List (Option F64) → Bool
run active [] = active
run active (t ∷ ts) = run (observe active t) ts

abbrev pub is_hot : Option F64 → Bool
is_hot reading = is_some_and reading (leb_F critical_c)

abbrev pub is_clear : Option F64 → Bool
is_clear reading = is_some_and reading (λ temp. ltb_F temp critical_clear_c)

run-append :
    (active : Bool) (ts us : List (Option F64)) → run active (ts ++ us) ≡ run (run active ts) us
unfolding run
run-append active [] us = refl
run-append active (t ∷ ts) us = run-append (observe active t) ts us

run_held : (ts : List (Option F64)) → All (λ t. is_clear t ≡ false) ts → run true ts ≡ true
unfolding run observe
run_held [] h = refl
run_held (none ∷ ts) h = run_held ts h.1
run_held (some t ∷ ts) h = ground (arith, run_held ts h.1)

run_idle : (ts : List (Option F64)) → All (λ t. is_hot t ≡ false) ts → run false ts ≡ false
unfolding run observe
run_idle [] h = refl
run_idle (none ∷ ts) h = run_idle ts h.1
run_idle (some t ∷ ts) h = ground (arith, run_idle ts h.1)

observe_hot : (active : Bool) (t : F64) → leb_F critical_c t ≡ true → observe active (some t) ≡ true
unfolding observe
observe_hot active t h = rw h

observe_clear :
    (active : Bool) (t : F64) → ltb_F t critical_clear_c ≡ true → observe active (some t) ≡ false
unfolding observe
observe_clear active t h = ground (arith, unit_pos)

-- The latch is on after any history in which a critical reading was not followed by one under the
-- clear threshold: lost readings and those in between change nothing.
pub critical-holds :
    (active : Bool) (before after : List (Option F64)) (t : F64)
    → leb_F critical_c t ≡ true
    → All (λ u. is_clear u ≡ false) after
    → run active (before ++ some t ∷ after) ≡ true
unfolding run
critical-holds active before after t hot h =
    rw run-append (rw (observe_hot (run active before) t hot) (run_held after h))

-- The latch is off after any history in which a reading under the clear threshold was not followed by
-- a critical one.
pub clear-releases :
    (active : Bool) (before after : List (Option F64)) (t : F64)
    → ltb_F t critical_clear_c ≡ true
    → All (λ u. is_hot u ≡ false) after
    → run active (before ++ some t ∷ after) ≡ false
unfolding run
clear-releases active before after t clear h =
    rw run-append (rw (observe_clear (run active before) t clear) (run_idle after h))

pub record HeatThresholds : Type 0 where
  pub hot_c : F64
  pub cool_c : F64

-- `HeatThresholds::default()`
abbrev pub default_thresholds : HeatThresholds
default_thresholds = record { hot_c = whole 85; cool_c = whole 75 }

pub sanitised : F64 → F64 → HeatThresholds
sanitised hot_c cool_c =
    let valid =
      is_finite hot_c
      && (is_finite cool_c
          && (ltb_F cool_c hot_c
              && (leb_F (whole 40) hot_c
                  && (leb_F hot_c critical_c && leb_F (whole 30) cool_c)))) in
    if valid then record { hot_c = hot_c; cool_c = cool_c } else default_thresholds

-- Whatever is configured, the pair that the checker works between is finite, can latch off, calls
-- nothing under 40 degrees hot, and calls everything critical hot.
pub sanitised_bounds :
    (hot_c cool_c : F64)
    → let t = sanitised hot_c cool_c in
      (ltb_F t.cool_c t.hot_c ≡ true)
      × (leb_F (whole 40) t.hot_c ≡ true)
      × (leb_F t.hot_c critical_c ≡ true)
      × (leb_F (whole 30) t.cool_c ≡ true)
      × (is_finite t.hot_c ≡ true)
      × (is_finite t.cool_c ≡ true)
unfolding sanitised
sanitised_bounds hot_c cool_c = ground (arith, unit_pos)
