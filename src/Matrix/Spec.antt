-- ===== src/Matrix/Spec.antt =====
-- The presentation of an indicator, and the words for its patterns, brightness and colours.
use forge_key.Prelude.{
  ℕ, ◌+◌, ◌-◌, ◌*◌, Bool, false, ◌&&◌, ◌||◌, Option, none, some, List, [], ◌∷◌, map, leb, ◌==◌,
  if◌then◌else◌, Text, codes, is_empty, text_eq, to_lower,
}

-- enum class Pattern
pub data Pattern : Type 0 where
  solid blink slow_blink breathe off : Pattern

pub record IndicatorSpec : Type 0 where
  pub r : ℕ
  pub g : ℕ
  pub b : ℕ
  pub brightness : ℕ
  pub pattern : Pattern
  pub period_ms : ℕ

-- IndicatorSpec{}
abbrev pub default_spec : IndicatorSpec
default_spec = record { r = 0; g = 0; b = 0; brightness = 255; pattern = solid; period_ms = 0 }

-- strcasecmp(a, b) == 0
unfoldable pub ieq : Text → Text → Bool
ieq a b = text_eq (map to_lower a) (map to_lower b)

abbrev pub brightness_low : ℕ
brightness_low = 31

abbrev pub brightness_high : ℕ
brightness_high = 230

abbrev pub hex_value : ℕ → Option ℕ
hex_value c =
    if leb b'0' c && leb c b'9'
    then some (c - b'0')
    else if leb b'a' c && leb c b'f'
    then some (c - b'a' + 10)
    else if leb b'A' c && leb c b'F'
    then some (c - b'A' + 10)
    else none

-- The digits after a '#', which isxdigit accepts.
abbrev all_digits :
    Option ℕ → Option ℕ → Option ℕ → Option ℕ → Option ℕ → Option ℕ → Option (ℕ × ℕ × ℕ)
all_digits (some a) (some b) (some c) (some d) (some e) (some f) =
    some (a * 16 + b, c * 16 + d, e * 16 + f)
all_digits _ _ _ _ _ _ = none

abbrev six_digits : Text → Option (ℕ × ℕ × ℕ)
six_digits (a ∷ b ∷ c ∷ d ∷ e ∷ f ∷ []) =
    all_digits (hex_value a) (hex_value b) (hex_value c) (hex_value d) (hex_value e) (hex_value f)
six_digits _ = none

unfoldable pub parse_hex_color : Text → Option (ℕ × ℕ × ℕ)
parse_hex_color [] = none
parse_hex_color (c ∷ cs) = if c == b'#' then six_digits cs else six_digits (c ∷ cs)

unfoldable pub parse_pattern : Text → Option Pattern
unfolding ieq
parse_pattern name =
    if ieq name (codes "solid")
    then some solid
    else if ieq name (codes "blink")
    then some blink
    else if ieq name (codes "slow_blink") || ieq name (codes "slowblink")
    then some slow_blink
    else if ieq name (codes "breathe") || ieq name (codes "breath")
    then some breathe
    else if ieq name (codes "off") || ieq name (codes "none")
    then some off
    else none

unfoldable pub pattern_name : Pattern → Text
pattern_name solid = codes "solid"
pattern_name blink = codes "blink"
pattern_name slow_blink = codes "slow_blink"
pattern_name breathe = codes "breathe"
pattern_name off = codes "off"

unfoldable pub parse_brightness : Text → Option ℕ
unfolding ieq
parse_brightness word =
    if ieq word (codes "low")
    then some brightness_low
    else if ieq word (codes "high")
    then some brightness_high
    else if ieq word (codes "off")
    then some 0
    else if ieq word (codes "full") || ieq word (codes "max")
    then some 255
    else none

abbrev palette : List (Text × ℕ × ℕ × ℕ)
palette =
    (codes "red", 255, 0, 0)
    ∷ (codes "green", 0, 255, 0)
    ∷ (codes "blue", 0, 0, 255)
    ∷ (codes "yellow", 255, 200, 0)
    ∷ (codes "orange", 255, 90, 0)
    ∷ (codes "purple", 160, 0, 255)
    ∷ (codes "magenta", 255, 0, 255)
    ∷ (codes "pink", 255, 60, 120)
    ∷ (codes "cyan", 0, 255, 255)
    ∷ (codes "white", 255, 255, 255)
    ∷ (codes "off", 0, 0, 0)
    ∷ (codes "black", 0, 0, 0)
    ∷ []

-- The loop over the palette, and what follows it.
unfoldable pub named_color : Text → List (Text × ℕ × ℕ × ℕ) → Option (ℕ × ℕ × ℕ)
unfolding ieq
named_color name [] = parse_hex_color name
named_color name ((word, r, g, b) ∷ rest) =
    if ieq name word then some (r, g, b) else named_color name rest

unfoldable pub parse_color : Text → Option (ℕ × ℕ × ℕ)
unfolding named_color
parse_color [] = none
parse_color (c ∷ cs) = if c == b'#' then parse_hex_color (c ∷ cs) else named_color (c ∷ cs) palette

-- What a keyword asks for: `keywordSpec` returns false for an unknown one.
pub data Keyword : Type 0 where
  unknown clear : Keyword
  looks : IndicatorSpec → Keyword

abbrev plain : ℕ → ℕ → ℕ → IndicatorSpec
plain r g b = record { r = r; g = g; b = b; brightness = 255; pattern = solid; period_ms = 0 }

-- parseColor into a spec, which leaves it where the word is unknown.
abbrev colored : Option (ℕ × ℕ × ℕ) → IndicatorSpec → IndicatorSpec
colored none s = s
colored (some (r, g, b)) s = record s { r = r; g = g; b = b }

abbrev pub is_any : Text → List Text → Bool
is_any word [] = false
is_any word (w ∷ ws) = ieq word w || is_any word ws

-- The keywords that came later than the first five groups.
unfoldable pub keyword_alias : Text → Keyword
unfolding ieq
keyword_alias k =
    let bright = record default_spec { brightness = brightness_high } in
    if is_any k (codes "purple" ∷ codes "magenta" ∷ [])
    then looks (colored (parse_color k) bright)
    else if ieq k (codes "in_use")
    then looks (colored (parse_color (codes "green")) bright)
    else if ieq k (codes "unavailable")
    then looks
        (colored (parse_color (codes "red")) (record default_spec { brightness = brightness_low }))
    else if is_any k (codes "classroom" ∷ codes "class" ∷ [])
    then looks (
        colored (parse_color (codes "purple"))
          (record bright { pattern = slow_blink; period_ms = 1500 }))
    else if ieq k (codes "locked_out")
    then looks (record default_spec { pattern = off })
    else unknown

unfoldable pub keyword_spec : Text → Keyword
unfolding ieq keyword_alias
keyword_spec k =
    if is_empty k
    then unknown
    else if is_any k (codes "auto" ∷ codes "clear" ∷ [])
    then clear
    else if is_any k (codes "ok" ∷ codes "available" ∷ codes "green" ∷ [])
    then looks (plain 0 96 24)
    else if is_any k (codes "attention" ∷ codes "warning" ∷ codes "yellow" ∷ [])
    then looks (plain 112 72 0)
    else if is_any k (codes "error" ∷ codes "critical" ∷ codes "red" ∷ [])
    then looks (plain 112 0 0)
    else if is_any k (codes "busy" ∷ codes "reserved" ∷ codes "blue" ∷ [])
    then looks (plain 0 40 112)
    else if ieq k (codes "off")
    then looks (record default_spec { pattern = off })
    else keyword_alias k
