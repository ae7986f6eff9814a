-- ===== src/Ble/Identity.antt =====
-- `publicDeviceId`: the name under which a device is reported, and its hash.
use forge_key.Prelude.{
  ℕ, zero, suc, ◌+◌, ◌-◌, ◌*◌, ◌/◌, ◌%◌, [], ◌∷◌, ◌++◌, ltb, if◌then◌else◌, u32, bit_xor, Text,
  codes, text_eq,
}
use forge_key.Ble.Config.{BleConfig}

abbrev hex_digit : ℕ → ℕ
hex_digit d = if ltb d 10 then b'0' + d else b'a' + d - 10

-- %08lx, by the number of digits.
unfoldable pub hex : ℕ → ℕ → Text
hex zero n = []
hex (suc k) n = hex k (n / 16) ++ hex_digit (n % 16) ∷ []

-- The loop of `fnv1a`.
unfoldable pub fnv1a_from : ℕ → Text → ℕ
fnv1a_from hash [] = hash
fnv1a_from hash (c ∷ cs) = fnv1a_from (u32 (bit_xor hash c * 16777619)) cs

unfoldable pub fnv1a : Text → ℕ → ℕ
unfolding fnv1a_from
fnv1a text seed = fnv1a_from (bit_xor 2166136261 seed) text

abbrev hashed_id : Text → ℕ → Text → Text
hashed_id material seed prefix =
    let h1 = fnv1a material seed in
    let h2 = fnv1a material (bit_xor h1 0x9e3779b9) in prefix ++ codes "_" ++ hex 8 h1 ++ hex 8 h2

-- `boot_salt` is g_bootSalt; the ephemeral name changes every hour.
unfoldable pub public_device_id : ℕ → BleConfig → Text → ℕ → Text
unfolding fnv1a hex
public_device_id boot_salt c bare_mac epoch =
    let material = c.site_namespace ++ codes ":" ++ bare_mac in
    if c.raw_mac_enabled
    then bare_mac
    else if text_eq c.identity_mode (codes "ephemeral")
    then hashed_id material (bit_xor boot_salt (epoch / 3600000)) (codes "blee")
    else hashed_id material 0 (codes "bleh")
