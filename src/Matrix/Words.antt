-- ===== src/Matrix/Words.antt =====
-- The texts for colour and pattern in the acknowledgement of an indicator.
use forge_key.Prelude.{
  ℕ, ◌+◌, ◌-◌, ◌/◌, ◌%◌, ◌<◌, ◌≡◌, refl, some, [], ◌∷◌, arith, ltb, if◌then◌else◌, Text, text_eq,
}
use forge_key.Matrix.Spec.{
  Pattern, solid, blink, slow_blink, breathe, off, parse_pattern, pattern_name, parse_color,
  parse_hex_color, hex_value,
}

abbrev pub hex_digit : ℕ → ℕ
hex_digit d = if ltb d 10 then b'0' + d else b'A' + d - 10

-- snprintf("#%02X%02X%02X") of the colour of a spec.
unfoldable pub color_text : ℕ → ℕ → ℕ → Text
color_text r g b =
    b'#'
    ∷ hex_digit (r / 16)
    ∷ hex_digit (r % 16)
    ∷ hex_digit (g / 16)
    ∷ hex_digit (g % 16)
    ∷ hex_digit (b / 16)
    ∷ hex_digit (b % 16)
    ∷ []

hex_value-hex_digit : (d : ℕ) → d < 16 → hex_value (hex_digit d) ≡ some d
hex_value-hex_digit d h = ground arith

parse_pattern-pattern_name : (p : Pattern) → parse_pattern (pattern_name p) ≡ some p
unfolding parse_pattern pattern_name text_eq
parse_pattern-pattern_name solid = refl
parse_pattern-pattern_name blink = refl
parse_pattern-pattern_name slow_blink = refl
parse_pattern-pattern_name breathe = refl
parse_pattern-pattern_name off = refl

-- The colour and the pattern that an acknowledgement names are read back as what was shown: the
-- colour as its three bytes, and each of the five patterns as itself.
pub acknowledged_look :
    (r g b : ℕ) (p : Pattern)
    → r < 256
    → g < 256
    → b < 256
    → (parse_color (color_text r g b) ≡ some (r, g, b)) × (parse_pattern (pattern_name p) ≡ some p)
unfolding color_text parse_color parse_hex_color
acknowledged_look r g b p hr hg hb = (
  simp
      (
        hex_value-hex_digit (r / 16) (omega arith),
        hex_value-hex_digit (r % 16) (omega arith),
        hex_value-hex_digit (g / 16) (omega arith),
        hex_value-hex_digit (g % 16) (omega arith),
        hex_value-hex_digit (b / 16) (omega arith),
        hex_value-hex_digit (b % 16) (omega arith),
      )
      (ground arith),
  parse_pattern-pattern_name p,
)
