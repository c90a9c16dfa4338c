-- ===== src/Rgb/Color/RoundTrip.antt =====
-- daemon/crates/rgb/src/color.rs: what is written is read back, and the short form.
use pyren.Base.{
  ℕ, ◌+◌, ◌-◌, ◌*◌, ◌/◌, ◌%◌, ◌<◌, ◌≤◌, ◌⊎◌, ◌≡◌, refl, ◌∙◌, sym, Bool, true, false, some, List, [],
  ◌∷◌, ◌==◌, arith,
}
use pyren.Rgb.Color.{
  Rgb, digit, to_hex, is_whitespace, trim_start, trim_end, strip_hashes, utf8_len, byte_len,
  hex_digit, digits_from, from_radix, Parsed, parsed, two_bytes, next_byte, three_bytes, parse_hex,
  parse,
}

-- A character that is the hexadecimal digit `n`.
record IsHex (c n : ℕ) : Type 0 where
  small : n < 16
  visible : is_whitespace c ≡ false
  no_hash : (c == 35) ≡ false
  no_plus : (c == 43) ≡ false
  one : utf8_len c ≡ 1
  value : hex_digit c ≡ some n

digit-IsHex : (n : ℕ) → n < 16 → IsHex (digit n) n
unfolding is_whitespace hex_digit
digit-IsHex n h = record {
  small = h;
  visible = ground arith;
  no_hash = ground arith;
  no_plus = ground arith;
  one = ground arith;
  value = ground arith;
}

hash_visible : is_whitespace 35 ≡ false
unfolding is_whitespace
hash_visible = refl

digits_two : (c d m n : ℕ) → IsHex c m → IsHex d n → digits_from 0 (c ∷ d ∷ []) ≡ some (m * 16 + n)
unfolding digits_from
digits_two c d m n h k = rw (h.value, k.value) (ground (arith, h.small, k.small))

next_byte-hex :
    (c d m n : ℕ) (rest : List ℕ)
    → IsHex c m
    → IsHex d n
    → next_byte (c ∷ d ∷ rest) ≡ parsed (m * 16 + n, rest)
unfolding next_byte two_bytes from_radix
next_byte-hex c d m n rest h k = rw (h.one, k.one, h.no_plus, digits_two c d m n h k) refl

-- Six digits are three bytes.
three_bytes-hex :
    (a b c d e f i j k l m n : ℕ)
    → IsHex a i
    → IsHex b j
    → IsHex c k
    → IsHex d l
    → IsHex e m
    → IsHex f n
    → three_bytes (a ∷ b ∷ c ∷ d ∷ e ∷ f ∷ [])
      ≡ parsed (record { r = i * 16 + j; g = k * 16 + l; b = m * 16 + n })
unfolding three_bytes
three_bytes-hex a b c d e f i j k l m n ha hb hc hd he hf =
    rw
      (
        next_byte-hex a b i j (c ∷ d ∷ e ∷ f ∷ []) ha hb,
        next_byte-hex c d k l (e ∷ f ∷ []) hc hd,
        next_byte-hex e f m n [] he hf,
      )
      refl

-- The `#` in front may be left out.
abbrev pub hashed : Bool → List ℕ → List ℕ
hashed true cs = 35 ∷ cs
hashed false cs = cs

six_digits :
    (hash : Bool) (a b c d e f i j k l m n : ℕ)
    → IsHex a i
    → IsHex b j
    → IsHex c k
    → IsHex d l
    → IsHex e m
    → IsHex f n
    → parse (hashed hash (a ∷ b ∷ c ∷ d ∷ e ∷ f ∷ []))
      ≡ parsed (record { r = i * 16 + j; g = k * 16 + l; b = m * 16 + n })
unfolding parse parse_hex trim_start trim_end strip_hashes byte_len
six_digits true a b c d e f i j k l m n ha hb hc hd he hf =
    rw (hf.visible, hash_visible, ha.no_hash, ha.one, hb.one, hc.one, hd.one, he.one, hf.one)
      (three_bytes-hex a b c d e f i j k l m n ha hb hc hd he hf)
six_digits false a b c d e f i j k l m n ha hb hc hd he hf =
    rw (hf.visible, ha.visible, ha.no_hash, ha.one, hb.one, hc.one, hd.one, he.one, hf.one)
      (three_bytes-hex a b c d e f i j k l m n ha hb hc hd he hf)

three_digits :
    (hash : Bool) (a b c i j k : ℕ)
    → IsHex a i
    → IsHex b j
    → IsHex c k
    → parse (hashed hash (a ∷ b ∷ c ∷ []))
      ≡ parsed (record { r = i * 16 + i; g = j * 16 + j; b = k * 16 + k })
unfolding parse parse_hex trim_start trim_end strip_hashes byte_len
three_digits true a b c i j k ha hb hc =
    rw (hc.visible, hash_visible, ha.no_hash, ha.one, hb.one, hc.one)
      (three_bytes-hex a a b b c c i i j j k k ha ha hb hb hc hc)
three_digits false a b c i j k ha hb hc =
    rw (hc.visible, ha.visible, ha.no_hash, ha.one, hb.one, hc.one)
      (three_bytes-hex a a b b c c i i j j k k ha ha hb hb hc hc)

same_parts :
    {r g b r' g' b' : ℕ}
    → r ≡ r'
    → g ≡ g'
    → b ≡ b'
    → ◌≡◌ {A = Parsed Rgb}
        (parsed (record { r = r; g = g; b = b }))
        (parsed (record { r = r'; g = g'; b = b' }))
same_parts e f h = cc

-- A colour whose parts are bytes is read back from what is written for it.
pub parse-to_hex : (c : Rgb) → c.r < 256 → c.g < 256 → c.b < 256 → parse (to_hex c) ≡ parsed c
unfolding to_hex
parse-to_hex c r g b =
    six_digits true (digit (c.r / 16)) (digit (c.r % 16)) (digit (c.g / 16)) (digit (c.g % 16))
      (digit (c.b / 16)) (digit (c.b % 16)) (c.r / 16) (c.r % 16) (c.g / 16) (c.g % 16) (c.b / 16)
      (c.b % 16) (digit-IsHex (c.r / 16) (omega arith)) (digit-IsHex (c.r % 16) (omega arith))
      (digit-IsHex (c.g / 16) (omega arith)) (digit-IsHex (c.g % 16) (omega arith))
      (digit-IsHex (c.b / 16) (omega arith)) (digit-IsHex (c.b % 16) (omega arith))
    ∙ same_parts (omega arith) (omega arith) (omega arith)

-- The character is one that a person writes the digit `n` with, `0` to `9` or a letter of either
-- case. `A` is 65 and `a` is 97.
abbrev pub IsDigit : ℕ → ℕ → Type 0
IsDigit c n =
    ((n < 10) × (c ≡ 48 + n)) ⊎ ((10 ≤ n) × (n < 16) × ((c ≡ 65 + (n - 10)) ⊎ (c ≡ 97 + (n - 10))))

IsDigit-IsHex : (c n : ℕ) → IsDigit c n → IsHex c n
unfolding is_whitespace hex_digit
IsDigit-IsHex c n h = record {
  small = ground arith;
  visible = ground arith;
  no_hash = ground arith;
  no_plus = ground arith;
  one = ground arith;
  value = ground arith;
}

-- A short form means the long one with each digit twice: three hexadecimal digits, each a numeral or
-- a letter of either case, with the `#` or without it, are read as the same colour as those six, and
-- it is the colour whose parts are 17 times the digits.
pub parse-doubled :
    (hash : Bool) (a b c i j k : ℕ)
    → IsDigit a i
    → IsDigit b j
    → IsDigit c k
    → (parse (hashed hash (a ∷ b ∷ c ∷ [])) ≡ parse (hashed hash (a ∷ a ∷ b ∷ b ∷ c ∷ c ∷ [])))
      × (parse (hashed hash (a ∷ b ∷ c ∷ []))
          ≡ parsed (record { r = 17 * i; g = 17 * j; b = 17 * k }))
parse-doubled hash a b c i j k ha hb hc =
    let a_hex = IsDigit-IsHex a i ha in
    let b_hex = IsDigit-IsHex b j hb in
    let c_hex = IsDigit-IsHex c k hc in
    let short = three_digits hash a b c i j k a_hex b_hex c_hex in
    let long = six_digits hash a a b b c c i i j j k k a_hex a_hex b_hex b_hex c_hex c_hex in
    (short ∙ sym long, short ∙ same_parts (omega arith) (omega arith) (omega arith))
