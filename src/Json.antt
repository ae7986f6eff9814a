-- ===== src/Json.antt =====
-- The values of an ArduinoJson document that the firmware reads, and the accessors it uses.
use forge_key.Prelude.{ℕ, Bool, true, false, [], Text}

-- A member that is missing reads as `null`; arrays and objects as `other`.
pub data Value : Type 0 where
  null : Value
  str : Text → Value
  num : ℕ → Value
  negative : ℕ → Value  -- -(n + 1)
  boolean : Bool → Value
  other : Value

-- doc["name"]
abbrev pub Document : Type 0
Document = Text → Value

-- value | ""
abbrev pub text_or_empty : Value → Text
text_or_empty (str t) = t
text_or_empty _ = []

-- value.isNull()
abbrev pub is_null : Value → Bool
is_null null = true
is_null _ = false

-- The conversions of ArduinoJson, `as<uint8_t>()` and `as<bool>()`.
pub record Conversions : Type 0 where
  pub as_u8 : Value → ℕ
  pub as_bool : Value → Bool
