-- ===== src/Rgb/Color/Tests.antt =====
-- The colours of the tests of daemon/crates/rgb/src/color.rs.
use pyren.Base.{◌≡◌, refl, inl, inr, arith, true, [], ◌∷◌}
use pyren.Rgb.Color.{
  Rgb, to_hex, is_whitespace, trim_start, trim_end, strip_hashes, byte_len, hex_digit, digits_from,
  from_radix, parsed, panics, two_bytes, next_byte, three_bytes, parse_hex, parse,
}
use pyren.Rgb.Color.RoundTrip.{hashed, parse-to_hex, parse-doubled}

abbrev orange : Rgb
orange = record { r = 255; g = 153; b = 0 }

-- One character of three bytes: the slice of the first two ends inside it.
euro_panics : parse (8364 ∷ []) ≡ panics
unfolding two_bytes parse parse_hex byte_len strip_hashes trim_start trim_end is_whitespace
    three_bytes next_byte from_radix digits_from hex_digit
euro_panics = refl

-- `+f+f+f` is read as 0f0f0f.
plus_accepted :
    parse (43 ∷ 102 ∷ 43 ∷ 102 ∷ 43 ∷ 102 ∷ []) ≡ parsed (record { r = 15; g = 15; b = 15 })
unfolding parse parse_hex byte_len strip_hashes trim_start trim_end is_whitespace three_bytes
    next_byte from_radix digits_from hex_digit
plus_accepted = refl

parse-to_hex_example : parse (to_hex orange) ≡ parsed orange
parse-to_hex_example = parse-to_hex orange (omega arith) (omega arith) (omega arith)

-- `#F0a`, with a letter of each case.
parse-doubled_example :
    (parse (hashed true (70 ∷ 48 ∷ 97 ∷ []))
      ≡ parse (hashed true (70 ∷ 70 ∷ 48 ∷ 48 ∷ 97 ∷ 97 ∷ [])))
    × (parse (hashed true (70 ∷ 48 ∷ 97 ∷ [])) ≡ parsed (record { r = 255; g = 0; b = 170 }))
parse-doubled_example =
    parse-doubled true 70 48 97 15 0 10 (inr (omega arith, omega arith, inl refl))
      (inl (omega arith, refl)) (inr (omega arith, omega arith, inr refl))
