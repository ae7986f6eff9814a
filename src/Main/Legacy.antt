-- ===== src/Main/Legacy.antt =====
-- What a legacy `set_pattern`, with a keyword in `pattern`, makes of a brightness.
use forge_key.Prelude.{ℕ, ◌≡◌, refl, true, false, none, some, arith, codes, is_empty}
use forge_key.Json.{text_or_empty, is_null}
use forge_key.Matrix.Spec.{parse_pattern, keyword_spec, IndicatorSpec, looks, default_spec}
use forge_key.Main.Indicator.{
  Message, Numbers, Look, blank_look, resolve, take_keyword, take_color, take_brightness,
  take_pattern, take_period, brightness_value,
}

-- A message without a keyword of its own and without a colour, whose pattern is no pattern.
pub record IsLegacy (m : Message) : Type 0 where
  pub no_indicator : is_empty (text_or_empty (m.fields (codes "indicator"))) ≡ true
  pub no_state : is_empty (text_or_empty (m.fields (codes "state"))) ≡ true
  pub no_color : is_null (m.fields (codes "color")) ≡ true
  pub some_word : is_empty (text_or_empty (m.fields (codes "pattern"))) ≡ false
  pub no_pattern : parse_pattern (text_or_empty (m.fields (codes "pattern"))) ≡ none

named_nothing : (m : Message) → IsLegacy m → take_keyword m blank_look ≡ some blank_look
unfolding take_keyword
named_nothing m legacy = rw (legacy.no_indicator, legacy.no_state) refl

module _ (json : Numbers) where
  colored_nothing : (m : Message) (l : Look) → IsLegacy m → take_color json m l ≡ some l
  unfolding take_color
  colored_nothing m l legacy = rw legacy.no_color refl

  lit :
      (m : Message) (l : Look) (n : ℕ)
      → brightness_value json (m.fields (codes "brightness")) ≡ some n
      → is_null (m.fields (codes "brightness")) ≡ false
      → take_brightness json m l ≡ some (record l { spec = record l.spec { brightness = n } })
  unfolding take_brightness
  lit m l n bright given = rw (given, bright) refl

  -- The word is taken for a keyword, whose look replaces the one so far.
  shaped :
      (m : Message) (l : Look) (s : IndicatorSpec)
      → IsLegacy m
      → l.have_keyword ≡ false
      → l.have_color ≡ false
      → keyword_spec (text_or_empty (m.fields (codes "pattern"))) ≡ looks s
      → take_pattern json m l ≡ some (record l { spec = s; resets = false; have_keyword = true })
  unfolding take_pattern
  shaped m l s legacy no_keyword no_color known =
      ground (arith, legacy.some_word, legacy.no_pattern, no_keyword, no_color, known)

  take_period-keeps :
      (m : Message) (l : Look)
      → ((take_period json m l).have_keyword ≡ l.have_keyword)
        × ((take_period json m l).spec.brightness ≡ l.spec.brightness)
  unfolding take_period
  take_period-keeps m l = ground arith

  -- A legacy command, whose `pattern` is a keyword and which names no indicator and no colour,
  -- loses its brightness: it is shown with the brightness of the keyword's own look, whatever
  -- brightness the message gives.
  pub legacy_brightness_lost :
      (m : Message) (n : ℕ) (s : IndicatorSpec)
      → IsLegacy m
      → is_null (m.fields (codes "brightness")) ≡ false
      → brightness_value json (m.fields (codes "brightness")) ≡ some n
      → keyword_spec (text_or_empty (m.fields (codes "pattern"))) ≡ looks s
      → (l : Look) × (resolve json m ≡ some l) × (l.spec.brightness ≡ s.brightness)
  unfolding resolve
  legacy_brightness_lost m n s legacy given bright known =
      let dimmed = record blank_look { spec = record default_spec { brightness = n } } in
      let found = record dimmed { spec = s; resets = false; have_keyword = true } in
      (
        take_period json m found,
        rw
            (
              named_nothing m legacy,
              colored_nothing m blank_look legacy,
              lit m blank_look n bright given,
              shaped m dimmed s legacy refl refl known,
            )
            (rw (take_period-keeps m found).0 refl),
        (take_period-keeps m found).1,
      )
