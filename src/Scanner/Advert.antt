-- ===== src/Scanner/Advert.antt =====
-- What an advertisement says: the bare address, and `parseIbeacon`.
use forge_key.Prelude.{
  ℕ, ◌+◌, ◌-◌, ◌*◌, ◌/◌, ◌%◌, Bool, not, Option, none, some, List, [], ◌∷◌, map, ltb, ◌==◌,
  if◌then◌else◌, length, get_elem?, take, drop, modify, Text, codes, text_eq, to_lower, ℤ,
}

-- What the callback reads of a BLEAdvertisedDevice. The bytes of the manufacturer data are taken as
-- they were received, though the callback reads them through a pointer into a temporary.
pub record Advertisement : Type 0 where
  pub address : Text
  pub rssi : ℤ
  pub manufacturer_data : Text

-- macStr.replace(":", "")
unfoldable pub without_colons : Text → Text
without_colons [] = []
without_colons (c ∷ cs) = if c == b':' then without_colons cs else c ∷ without_colons cs

-- The address without colons, in lower case, clipped to the 12 bytes that the entries hold.
unfoldable pub bare_mac : Text → Text
unfolding without_colons
bare_mac address = take 12 (map to_lower (without_colons address))

-- FORGEKEY_BEACON_UUID
abbrev pub beacon_uuid : Text
beacon_uuid = codes "A1B2C3D4-E5F6-7890-ABCD-EF1234567890"

unfoldable pub is_forge_key_beacon : Text → Bool
is_forge_key_beacon uuid = text_eq uuid beacon_uuid

abbrev hex_digit : ℕ → ℕ
hex_digit d = if ltb d 10 then b'0' + d else b'a' + d - 10

-- sprintf("%02x") of each byte
unfoldable pub hex_bytes : List ℕ → Text
hex_bytes [] = []
hex_bytes (b ∷ bs) = hex_digit (b / 16 % 16) ∷ hex_digit (b % 16) ∷ hex_bytes bs

-- uuid[i] = '-'
abbrev put_hyphen : ℕ → Text → Text
put_hyphen i = modify i (λ old. b'-')

abbrev byte_or : Option ℕ → ℕ
byte_or none = 0
byte_or (some b) = b

-- A byte of the data, after the test of its length.
abbrev pub byte_at : ℕ → Text → ℕ
byte_at i bytes = byte_or (get_elem? bytes i)

-- The hyphens are written over digits, and uuid[28] ends the text.
unfoldable pub uuid_text : Text → Text
unfolding hex_bytes
uuid_text bytes = take 28 (
    put_hyphen 23
      (put_hyphen 18 (put_hyphen 13 (put_hyphen 8 (hex_bytes (take 16 (drop 2 bytes)))))))

-- The UUID, the major and the minor number.
unfoldable pub parse_ibeacon : Text → Option (Text × ℕ × ℕ)
unfolding uuid_text
parse_ibeacon bytes =
    if ltb (length bytes) 26
    then none
    else if not (byte_at 1 bytes == 0x15)
    then none
    else some (
      uuid_text bytes,
      byte_at 18 bytes * 256 + byte_at 19 bytes,
      byte_at 20 bytes * 256 + byte_at 21 bytes,
    )
