-- ===== src/Rgb/Color/Bytes.antt =====
-- daemon/crates/rgb/src/color.rs: what is accepted is a colour of bytes.
use pyren.Base.{
  ℕ, ◌+◌, ◌*◌, ◌<◌, ◌≡◌, refl, sym, subst, ◌∙◌, Bool-cases, inl, inr, Option, none, some, List, [],
  ◌∷◌, ◌==◌, ltb, arith, and_then, then_some, ℤ, pos, negsuc,
}
use pyren.Rgb.Color.{
  Rgb, trim_start, trim_end, strip_hashes, byte_len, hex_digit, digits_from, from_radix, Parsed,
  parsed, not_a_colour, panics, ◌>>=◌, as_hex, two_bytes, next_byte, three_bytes, doubled,
  parse_hex, parse, clamp_u8, Written, hex, triple, deserialize,
}

digit_then :
    (acc v : ℕ) (cs : List ℕ) (o : Option ℕ)
    → ((a : ℕ) → a < 256 → digits_from a cs ≡ some v → v < 256)
    → and_then o (λ d.
      and_then (then_some (ltb (acc * 16 + d) 256) (acc * 16 + d)) (λ value. digits_from value cs))
      ≡ some v
    → v < 256
digit_then acc v cs none k q = cc
digit_then acc v cs (some d) k q = elim (Bool-cases (ltb (acc * 16 + d) 256)) [
  | inl fits ↦ k (acc * 16 + d) (ground arith) (sym (rw fits refl) ∙ q)
  | inr over ↦ cc
]

digits_from-small :
    (acc : ℕ) (cs : List ℕ) (v : ℕ) → acc < 256 → digits_from acc cs ≡ some v → v < 256
unfolding digits_from
digits_from-small acc [] v h e = ground arith
digits_from-small acc (c ∷ cs) v h e =
    digit_then acc v cs (hex_digit c) (λ a small q. digits_from-small a cs v small q) e

from_radix-small : (cs : List ℕ) (v : ℕ) → from_radix cs ≡ some v → v < 256
unfolding from_radix
from_radix-small [] v e = cc
from_radix-small (c ∷ []) v e = digits_from-small 0 (c ∷ []) v (omega arith) e
from_radix-small (c ∷ d ∷ ds) v e = elim (Bool-cases (c == 43)) [
  | inl plus ↦ digits_from-small 0 (d ∷ ds) v (omega arith) (sym (rw plus refl) ∙ e)
  | inr other ↦ digits_from-small 0 (c ∷ d ∷ ds) v (omega arith) (sym (rw other refl) ∙ e)
]

-- What is parsed, if anything is, has `P`.
abbrev Gives {ℓ} : {A : Type ℓ} → (A → Type 0) → Parsed A → Type 0
Gives P (parsed a) = P a
Gives P _ = Unit {0}

Gives-bind {ℓ κ} :
    {A : Type ℓ} {B : Type κ} (P : A → Type 0) (Q : B → Type 0) (first : Parsed A)
    (next : A → Parsed B)
    → Gives P first
    → ((a : A) → P a → Gives Q (next a))
    → Gives Q (first >>= next)
Gives-bind P Q panics next given later = tt
Gives-bind P Q not_a_colour next given later = tt
Gives-bind P Q (parsed a) next given later = later a given

as_hex-Gives : (cs : List ℕ) (o : Option ℕ) → from_radix cs ≡ o → Gives (λ n. n < 256) (as_hex o)
as_hex-Gives cs none e = tt
as_hex-Gives cs (some v) e = from_radix-small cs v e

any_Gives {ℓ} : {A : Type ℓ} (m : Parsed A) → Gives (λ a. Unit {0}) m
any_Gives (parsed a) = tt
any_Gives not_a_colour = tt
any_Gives panics = tt

next_byte-Gives : (cs : List ℕ) → Gives (λ x. x.0 < 256) (next_byte cs)
unfolding next_byte
next_byte-Gives cs =
    Gives-bind (λ x. Unit {0}) (λ x. x.0 < 256) (two_bytes cs)
      (λ slice. as_hex (from_radix slice.0) >>= λ n. parsed (n, slice.1)) (any_Gives (two_bytes cs))
      (λ slice h.
        Gives-bind (λ n. n < 256) (λ x. x.0 < 256) (as_hex (from_radix slice.0))
          (λ n. parsed (n, slice.1)) (as_hex-Gives slice.0 (from_radix slice.0) refl)
          (λ n small. small))

-- The three parts of a colour are bytes.
record IsBytes (c : Rgb) : Type 0 where
  r : c.r < 256
  g : c.g < 256
  b : c.b < 256

three_bytes-Gives : (cs : List ℕ) → Gives IsBytes (three_bytes cs)
unfolding three_bytes
three_bytes-Gives cs =
    Gives-bind (λ x. x.0 < 256) IsBytes (next_byte cs)
      (λ r.
        next_byte r.1 >>= λ g. next_byte g.1 >>= λ b. parsed (record { r = r.0; g = g.0; b = b.0 }))
      (next_byte-Gives cs)
      (λ r hr.
        Gives-bind (λ x. x.0 < 256) IsBytes (next_byte r.1)
          (λ g. next_byte g.1 >>= λ b. parsed (record { r = r.0; g = g.0; b = b.0 }))
          (next_byte-Gives r.1)
          (λ g hg.
            Gives-bind (λ x. x.0 < 256) IsBytes (next_byte g.1)
              (λ b. parsed (record { r = r.0; g = g.0; b = b.0 })) (next_byte-Gives g.1)
              (λ b hb. record { r = hr; g = hg; b = hb })))

parse_hex-Gives : (cs : List ℕ) → Gives IsBytes (parse_hex cs)
unfolding parse_hex
parse_hex-Gives cs = elim (Bool-cases (byte_len cs == 3)) [
  | inl short ↦ rw short (three_bytes-Gives (doubled cs))
  | inr other ↦ elim (Bool-cases (byte_len cs == 6)) [
    | inl long ↦ rw (other, long) (three_bytes-Gives cs)
    | inr neither ↦ rw (other, neither) tt
  ]
]

clamp_u8-small : (v : ℤ) → clamp_u8 v < 256
unfolding clamp_u8
clamp_u8-small (pos n) = ground arith
clamp_u8-small (negsuc n) = omega arith

deserialize-Gives : (w : Written) → Gives IsBytes (deserialize w)
unfolding deserialize parse
deserialize-Gives (hex text) = parse_hex-Gives (strip_hashes (trim_start (trim_end text)))
deserialize-Gives (triple r g b) = record {
  r = clamp_u8-small r;
  g = clamp_u8-small g;
  b = clamp_u8-small b;
}

given : (c : Rgb) (m : Parsed Rgb) → m ≡ parsed c → Gives IsBytes m → IsBytes c
given c m e h = subst (λ x. Gives IsBytes x) e h

-- Whatever is read as a colour, from a text of any characters or from three numbers of any size, is
-- a colour of bytes: its three parts are below 256.
deserialize-IsBytes : (w : Written) (c : Rgb) → deserialize w ≡ parsed c → IsBytes c
deserialize-IsBytes w c e = given c (deserialize w) e (deserialize-Gives w)
