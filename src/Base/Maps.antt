-- ===== src/Base/Maps.antt =====
-- Maps from texts, as association lists.
use Prim.Native.String.{String}
use mathlib.Core.Path.{◌≡◌, refl, ◌∙◌}
use mathlib.Core.Bool.{Bool, true}
use mathlib.Core.List.{List, [], ◌∷◌}
use mathlib.Core.Option.{Option, none, some}
use native.Mathlib.Omega.{arith}
use text.Mathlib.Text
use text.Mathlib.TextEquality.{eq_iff}
use text.Mathlib.TextPositions.{eq_refl}
use pyren.Base.Tests.{if◌then◌else◌}

-- `a == b` on texts.
abbrev pub str_eq : String → String → Bool
str_eq a b = Text.◌==◌ a b

pub str_eq_refl : (a : String) → str_eq a a ≡ true
str_eq_refl a = rw (eq_refl a) refl

pub str_eq-eq : (a b : String) → str_eq a b ≡ true → a ≡ b
str_eq-eq a b h = (eq_iff a b).0 h

module _ {ℓ} {V : Type ℓ} where
  unfoldable pub lookup : String → List (String × V) → Option V
  lookup wanted ((key, value) ∷ rest) = if str_eq key wanted then some value else lookup wanted rest
  lookup wanted [] = none

  -- Inserting replaces in place.
  unfoldable pub insert : String → V → List (String × V) → List (String × V)
  insert key value ((other, old) ∷ rest) =
      if str_eq other key then (other, value) ∷ rest else (other, old) ∷ insert key value rest
  insert key value [] = (key, value) ∷ []

  pub lookup-insert :
      (key wanted : String) (value : V) (entries : List (String × V))
      → lookup wanted (insert key value entries)
        ≡ (if str_eq key wanted then some value else lookup wanted entries)
  unfolding lookup insert
  lookup-insert key wanted value ((other, old) ∷ rest) =
      let later = lookup-insert key wanted value rest in
      ground (arith, eq_iff other wanted, eq_iff key wanted, eq_iff other key, later)
  lookup-insert key wanted value [] = refl

  pub lookup_put :
      (key : String) (value : V) (entries : List (String × V))
      → lookup key (insert key value entries) ≡ some value
  lookup_put key value entries = lookup-insert key key value entries ∙ rw (str_eq_refl key) refl
