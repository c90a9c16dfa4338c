-- ===== src/Rgb/Color.antt =====
-- daemon/crates/rgb/src/color.rs: `Rgb` with the two shapes that it is written in. A text is the list
-- of its characters, as numbers of Unicode; its length and its slices are those of its bytes.
pub mod RoundTrip
pub mod Bytes
pub mod Nearest
mod Tests
use pyren.Base.{
  ℕ, zero, suc, ◌+◌, ◌-◌, ◌*◌, ◌/◌, ◌%◌, Bool, true, false, ◌||◌, ◌&&◌, Option, none, some, List,
  [], ◌∷◌, ltb, leb, ◌==◌, if◌then◌else◌, ℤ, pos, negsuc, then_some, and_then,
}

pub record Rgb : Type 0 where
  pub r : ℕ
  pub g : ℕ
  pub b : ℕ

-- `{:x}` of a number below 16.
abbrev pub digit : ℕ → ℕ
digit n = if ltb n 10 then 48 + n else 87 + n

-- `#` is 35. `{:02x}` of a byte is two digits.
pub to_hex : Rgb → List ℕ
to_hex c =
    35
    ∷ digit (c.r / 16)
    ∷ digit (c.r % 16)
    ∷ digit (c.g / 16)
    ∷ digit (c.g % 16)
    ∷ digit (c.b / 16)
    ∷ digit (c.b % 16)
    ∷ []

abbrev pub between : ℕ → ℕ → ℕ → Bool
between low high c = leb low c && leb c high

-- `char::is_whitespace`, the property White_Space.
pub is_whitespace : ℕ → Bool
is_whitespace c =
    between 9 13 c
    || c == 32
    || c == 133
    || c == 160
    || c == 5760
    || between 8192 8202 c
    || between 8232 8233 c
    || c == 8239
    || c == 8287
    || c == 12288

pub trim_start : List ℕ → List ℕ
trim_start [] = []
trim_start (c ∷ cs) = if is_whitespace c then trim_start cs else c ∷ cs

abbrev pub keep_end : ℕ → List ℕ → List ℕ
keep_end c [] = if is_whitespace c then [] else c ∷ []
keep_end c (d ∷ ds) = c ∷ d ∷ ds

pub trim_end : List ℕ → List ℕ
trim_end [] = []
trim_end (c ∷ cs) = keep_end c (trim_end cs)

-- `trim_start_matches('#')`
pub strip_hashes : List ℕ → List ℕ
strip_hashes [] = []
strip_hashes (c ∷ cs) = if c == 35 then strip_hashes cs else c ∷ cs

-- The bytes of a character in UTF-8.
abbrev pub utf8_len : ℕ → ℕ
utf8_len c = if ltb c 128 then 1 else if ltb c 2048 then 2 else if ltb c 65536 then 3 else 4

pub byte_len : List ℕ → ℕ
byte_len [] = 0
byte_len (c ∷ cs) = utf8_len c + byte_len cs

-- `c.to_digit(16)`
pub hex_digit : ℕ → Option ℕ
hex_digit c =
    if between 48 57 c
    then some (c - 48)
    else if between 97 102 c
    then some (c - 87)
    else if between 65 70 c
    then some (c - 55)
    else none

-- `u8::from_str_radix(text, 16)`: a number of `u8` that overflows is refused, and a `+` in front of
-- something is passed over.
pub digits_from : ℕ → List ℕ → Option ℕ
digits_from acc [] = some acc
digits_from acc (c ∷ cs) = and_then (hex_digit c) (λ d.
    and_then (then_some (ltb (acc * 16 + d) 256) (acc * 16 + d)) (λ value. digits_from value cs))

pub from_radix : List ℕ → Option ℕ
from_radix [] = none
from_radix (c ∷ []) = digits_from 0 (c ∷ [])
from_radix (c ∷ d ∷ ds) = if c == 43 then digits_from 0 (d ∷ ds) else digits_from 0 (c ∷ d ∷ ds)

-- What `parse` comes to; a slice that ends inside a character panics.
pub data Parsed {ℓ} (A : Type ℓ) : Type ℓ where
  parsed : A → Parsed A
  not_a_colour panics : Parsed A

infixl 5 ◌>>=◌
abbrev pub ◌>>=◌ {ℓ κ} : {A : Type ℓ} {B : Type κ} → Parsed A → (A → Parsed B) → Parsed B
parsed a >>= f = f a
not_a_colour >>= f = not_a_colour
panics >>= f = panics

-- `&bytes[i..i + 2]`, with what follows it.
pub two_bytes : List ℕ → Parsed (List ℕ × List ℕ)
two_bytes [] = panics
two_bytes (c ∷ []) = if utf8_len c == 2 then parsed (c ∷ [], []) else panics
two_bytes (c ∷ d ∷ ds) =
    if utf8_len c == 2
    then parsed (c ∷ [], d ∷ ds)
    else if utf8_len c + utf8_len d == 2
    then parsed (c ∷ d ∷ [], ds)
    else panics

abbrev pub as_hex : Option ℕ → Parsed ℕ
as_hex none = not_a_colour
as_hex (some n) = parsed n

-- The next byte, and what follows it.
pub next_byte : List ℕ → Parsed (ℕ × List ℕ)
unfolding two_bytes
next_byte cs = do slice ← two_bytes cs; n ← as_hex (from_radix slice.0); parsed (n, slice.1)

pub three_bytes : List ℕ → Parsed Rgb
three_bytes cs = do
  r ← next_byte cs
  g ← next_byte r.1
  b ← next_byte g.1
  parsed (record { r = r.0; g = g.0; b = b.0 })

abbrev pub doubled : List ℕ → List ℕ
doubled [] = []
doubled (c ∷ cs) = c ∷ c ∷ doubled cs

pub parse_hex : List ℕ → Parsed Rgb
parse_hex hex =
    if byte_len hex == 3
    then three_bytes (doubled hex)
    else if byte_len hex == 6
    then three_bytes hex
    else not_a_colour

unfoldable pub parse : List ℕ → Parsed Rgb
parse text = parse_hex (strip_hashes (trim_start (trim_end text)))

-- `v.clamp(0, 255) as u8`
pub clamp_u8 : ℤ → ℕ
clamp_u8 (negsuc n) = 0
clamp_u8 (pos n) = if ltb 255 n then 255 else n

-- The two shapes that a colour is accepted in.
pub data Written : Type 0 where
  hex : List ℕ → Written
  triple : ℤ → ℤ → ℤ → Written

pub deserialize : Written → Parsed Rgb
deserialize (hex text) = parse text
deserialize (triple r g b) = parsed (record { r = clamp_u8 r; g = clamp_u8 g; b = clamp_u8 b })
