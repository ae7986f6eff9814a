-- ===== src/Main/Indicator.antt =====
-- The commands `set_indicator` and `set_pattern` in `onCommandMessage`: what a message resolves to.
use forge_key.Prelude.{
  ℕ, ◌*◌, Bool, true, false, not, ◌&&◌, Option, none, some, List, ◌∷◌, ltb, if◌then◌else◌, Text,
  codes, is_empty, ℤ, pos, negsuc, u32,
}
use forge_key.Json.{Value, str, Document, text_or_empty, is_null}
use forge_key.Matrix.Spec.{
  IndicatorSpec, default_spec, Keyword, unknown, clear, looks, keyword_spec, parse_color,
  parse_brightness, parse_pattern,
}

-- The message: its members, and the items of the colour where that is an array.
pub record Message : Type 0 where
  pub fields : Document
  pub color_items : Option (List Value)

-- ArduinoJson: `as<int>()`, `is<int>()`, and `value | fallback` for an unsigned long.
pub record Numbers : Type 0 where
  pub as_int : Value → ℤ
  pub is_int : Value → Bool
  pub ulong_or : Value → ℕ → ℕ

-- constrain(n, 0, 255)
abbrev constrain_byte : ℤ → ℕ
constrain_byte (pos n) = if ltb 255 n then 255 else n
constrain_byte (negsuc n) = 0

-- What the message asks for so far: `resets` is the flag `clear`.
pub record Look : Type 0 where
  pub spec : IndicatorSpec
  pub resets : Bool
  pub have_keyword : Bool
  pub have_color : Bool

abbrev pub blank_look : Look
blank_look = record {
  spec = default_spec;
  resets = false;
  have_keyword = false;
  have_color = false;
}

-- A step that `unsupported_indicator` may end.
infixl 5 ◌>>=◌
abbrev pub ◌>>=◌ : {A B : Type 0} → Option A → (A → Option B) → Option B
none >>= f = none
some a >>= f = f a

abbrev pub with_keyword : Keyword → Look → Option Look
with_keyword unknown l = none
with_keyword clear l = some (record l { resets = true; have_keyword = true })
with_keyword (looks s) l = some (record l { spec = s; resets = false; have_keyword = true })

abbrev pub keyword_of : Document → Text
keyword_of doc =
    if is_empty (text_or_empty (doc (codes "indicator")))
    then text_or_empty (doc (codes "state"))
    else text_or_empty (doc (codes "indicator"))

unfoldable pub take_keyword : Message → Look → Option Look
take_keyword m l =
    if is_empty (keyword_of m.fields)
    then some l
    else with_keyword (keyword_spec (keyword_of m.fields)) l

abbrev pub paint : ℕ × ℕ × ℕ → Look → Look
paint (r, g, b) l = record l {
  spec = record l.spec { r = r; g = g; b = b };
  resets = false;
  have_color = true;
}

-- The command must ask for something.
abbrev directed : Message → Look → Option Look
directed m l =
    if not l.have_keyword
      && not l.have_color
      && is_empty (text_or_empty (m.fields (codes "pattern")))
    then none
    else some l

module _ (json : Numbers) where
  abbrev color_array : List Value → Option (ℕ × ℕ × ℕ)
  color_array (r ∷ g ∷ b ∷ rest) = some (
    constrain_byte (json.as_int r),
    constrain_byte (json.as_int g),
    constrain_byte (json.as_int b),
  )
  color_array _ = none

  abbrev color_value : Message → Value → Option (ℕ × ℕ × ℕ)
  color_value m v = elim m.color_items [
    | some items ↦ color_array items
    | none ↦ elim v [ str name ↦ parse_color name | _ ↦ none ]
  ]

  unfoldable pub take_color : Message → Look → Option Look
  take_color m l =
      if is_null (m.fields (codes "color"))
      then some l
      else (color_value m (m.fields (codes "color")) >>= λ c. some (paint c l))

  abbrev pub brightness_value : Value → Option ℕ
  brightness_value (str word) = parse_brightness word
  brightness_value v = if json.is_int v then some (constrain_byte (json.as_int v)) else none

  unfoldable pub take_brightness : Message → Look → Option Look
  take_brightness m l =
      if is_null (m.fields (codes "brightness"))
      then some l
      else (brightness_value (m.fields (codes "brightness")) >>= λ n.
          some (record l { spec = record l.spec { brightness = n } }))

  -- A word that is no pattern may be a keyword, where nothing else was given.
  unfoldable pub take_pattern : Message → Look → Option Look
  take_pattern m l =
      let word = text_or_empty (m.fields (codes "pattern")) in
      if is_empty word then some l else elim (parse_pattern word) [
        | some p ↦ some (record l { spec = record l.spec { pattern = p } })
        | none ↦
            if not l.have_keyword && not l.have_color
            then with_keyword (keyword_spec word) l
            else none
      ]

  unfoldable pub take_period : Message → Look → Look
  take_period m l =
      let period = json.ulong_or (m.fields (codes "period_ms")) 0 in
      if ltb 0 period then record l { spec = record l.spec { period_ms = period } } else l

  -- The look that a message resolves to, if it is supported.
  unfoldable pub resolve : Message → Option Look
  unfolding take_keyword take_color take_brightness take_pattern take_period
  resolve m = do
    named ← take_keyword m blank_look
    colored ← take_color m named
    lit ← take_brightness m colored
    shaped ← take_pattern m lit
    directed m (take_period m shaped)

  -- The time that it is shown for, in milliseconds.
  unfoldable pub shown_ms : Message → ℕ
  shown_ms m = u32 (json.ulong_or (m.fields (codes "duration_s")) 0 * 1000)
