-- ===== src/Ble/Config.antt =====
-- The configuration and `apply`. Saving it to flash as JSON is left out.
use forge_key.Prelude.{
  ℕ, ◌*◌, Bool, true, false, not, ◌&&◌, List, [], ltb, if◌then◌else◌, take, ℤ, pos, negsuc, Text,
  codes, is_empty, text_eq,
}
use forge_key.Json.{Value, num, negative, str, Document, text_or_empty, is_null, Conversions}
use forge_key.Ble.Lists.{parse_list, list_max}

pub record BleConfig : Type 0 where
  pub scanner_enabled : Bool
  pub beacon_enabled : Bool
  pub relay_enabled : Bool
  pub equipment_enabled : Bool
  pub scan_interval_ms : ℕ
  pub scan_duration_s : ℕ
  pub rssi_threshold : ℤ
  pub raw_mac_enabled : Bool
  pub identity_mode : Text
  pub site_namespace : Text
  pub allowlist : List Text
  pub denylist : List Text

-- The object that `apply` reads: its members, and the items of those that are arrays.
pub record Desired : Type 0 where
  pub fields : Document
  pub items : Text → List Value

unfoldable pub initial : Bool → BleConfig
initial enabled = record {
  scanner_enabled = enabled;
  beacon_enabled = enabled;
  relay_enabled = enabled;
  equipment_enabled = enabled;
  scan_interval_ms = 60000;
  scan_duration_s = 5;
  rssi_threshold = negsuc 89;
  raw_mac_enabled = false;
  identity_mode = codes "hashed";
  site_namespace = codes "forgekey";
  allowlist = [];
  denylist = [];
}

-- value | fallback, for an unsigned and for a signed number within a limit
abbrev unsigned_or : ℕ → Value → ℕ → ℕ
unsigned_or limit (num n) fallback = if ltb n limit then n else fallback
unsigned_or limit _ fallback = fallback

abbrev signed_or : ℕ → Value → ℤ → ℤ
signed_or limit (num n) fallback = if ltb n limit then pos n else fallback
signed_or limit (negative n) fallback = if ltb n limit then negsuc n else fallback
signed_or limit _ fallback = fallback

abbrev text_or : Value → Text → Text
text_or (str t) fallback = t
text_or _ fallback = fallback

unfoldable pub clamp : BleConfig → BleConfig
clamp c =
    let interval = if ltb c.scan_interval_ms 10000 then 10000 else c.scan_interval_ms in
    let at_least = if ltb c.scan_duration_s 1 then 1 else c.scan_duration_s in
    let duration = if ltb 30 at_least then 30 else at_least in
    record c {
      scan_duration_s = duration;
      scan_interval_ms = if ltb interval (duration * 1000) then duration * 1000 else interval;
    }

module _ (json : Conversions) (ble : Desired) where
  -- A flag by its name or its other name, else the global one, else as it was.
  abbrev flag : Text → Text → Bool → Bool
  flag name other current =
      if not (is_null (ble.fields name))
      then json.as_bool (ble.fields name)
      else if not (is_null (ble.fields other))
      then json.as_bool (ble.fields other)
      else if not (is_null (ble.fields (codes "enabled")))
      then json.as_bool (ble.fields (codes "enabled"))
      else current

  -- The same without a global flag.
  abbrev raw_flag : Bool → Bool
  raw_flag current =
      if not (is_null (ble.fields (codes "raw_mac_enabled")))
      then json.as_bool (ble.fields (codes "raw_mac_enabled"))
      else if not (is_null (ble.fields (codes "publish_raw_mac")))
      then json.as_bool (ble.fields (codes "publish_raw_mac"))
      else current

  -- What is taken over before the identity mode is looked at.
  unfoldable pub take_over : BleConfig → BleConfig
  take_over c = record c {
    scanner_enabled = flag (codes "scanner") (codes "scanner_enabled") c.scanner_enabled;
    beacon_enabled = flag (codes "beacon") (codes "beacon_enabled") c.beacon_enabled;
    relay_enabled = flag (codes "relay") (codes "relay_enabled") c.relay_enabled;
    equipment_enabled = flag (codes "equipment") (codes "equipment_enabled") c.equipment_enabled;
    scan_interval_ms =
        unsigned_or 4294967296 (ble.fields (codes "scan_interval_ms")) c.scan_interval_ms;
    scan_duration_s = unsigned_or 65536 (ble.fields (codes "scan_duration_s")) c.scan_duration_s;
    rssi_threshold = signed_or 128 (ble.fields (codes "rssi_threshold")) c.rssi_threshold;
    raw_mac_enabled = raw_flag c.raw_mac_enabled;
  }

  -- The mode that is asked for; a missing or empty one is the current one.
  abbrev pub requested_mode : Text → Text
  requested_mode current =
      let mode =
        if not (is_null (ble.fields (codes "identity_mode")))
        then text_or_empty (ble.fields (codes "identity_mode"))
        else if not (is_null (ble.fields (codes "mac_id_mode")))
        then text_or_empty (ble.fields (codes "mac_id_mode"))
        else current in
      if is_empty mode then current else mode

  abbrev pub namespace : Text → Text
  namespace current =
      let ns = text_or (ble.fields (codes "site_namespace")) current in
      if is_empty ns then codes "forgekey" else take 31 ns

  -- The end of `apply`, from the test of the mode on: `current` is the namespace from before.
  unfoldable pub finish : BleConfig → Text → Text → BleConfig × Bool
  unfolding clamp
  finish c mode current =
      if not (text_eq mode (codes "hashed")) && not (text_eq mode (codes "ephemeral"))
      then (c, false)
      else (
        clamp (record c {
          identity_mode = mode;
          site_namespace = namespace current;
          allowlist = parse_list list_max (ble.items (codes "allowlist"));
          denylist = parse_list list_max (ble.items (codes "denylist"));
        }),
        true,
      )

  -- The new configuration, and whether the desired state was applied.
  unfoldable pub apply : BleConfig → BleConfig × Bool
  unfolding take_over finish
  apply c =
      let taken = take_over c in
      let asked = requested_mode c.identity_mode in
      if text_eq asked (codes "raw")
      then finish (record taken { raw_mac_enabled = true }) (codes "hashed") c.site_namespace
      else finish taken asked c.site_namespace
