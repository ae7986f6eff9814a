-- ===== src/Scanner/Scan.antt =====
-- The globals of the scanner, the callback `onResult`, `setupFn`, `setEnabled` and `tickFn`.
use forge_key.Prelude.{
  ℕ, ◌+◌, ◌*◌, Bool, true, false, not, ◌&&◌, ◌||◌, Option, none, some, List, [], ◌∷◌, ◌++◌, map,
  ltb, leb, ◌==◌, if◌then◌else◌, length, take, Text, codes, is_empty, text_eq, u32, elapsed, ℤ, pos,
  ◌+ℤ◌, ltb_ℤ, quotient, i8,
}
use forge_key.Ble.Config.{BleConfig}
use forge_key.Ble.Lists.{mac_allowed}
use forge_key.Ble.Identity.{public_device_id}
use forge_key.Scanner.Ring
use forge_key.Scanner.Ring.{Ring, mac_in_ring, add_mac_to_ring}
use forge_key.Scanner.Advert.{Advertisement, bare_mac, byte_at, parse_ibeacon, is_forge_key_beacon}

-- BleDevice; `ibeacon` has isIbeacon with uuid, major and minor, which are blank otherwise.
pub record Device : Type 0 where
  pub mac : Text
  pub public_id : Text
  pub rssi : ℤ
  pub ibeacon : Option (Text × ℕ × ℕ)

-- g_lastError
pub data ScanError : Type 0 where
  no_error disabled_mid_scan publish_failed : ScanError

-- The globals; `devices` are the first g_deviceCount entries of g_devices.
pub record Scanner : Type 0 where
  pub active : Bool
  pub enabled : Bool
  pub last_scan : ℕ
  pub scan_start : ℕ
  pub scanning : Bool
  pub scan_epoch : ℕ
  pub last_tick : ℕ
  pub scan_count : ℕ
  pub filtered_count : ℕ
  pub rssi_min : ℤ
  pub rssi_max : ℤ
  pub rssi_total : ℤ
  pub last_device_count : ℕ
  pub last_rssi_min : ℤ
  pub last_rssi_max : ℤ
  pub last_rssi_avg : ℤ
  pub last_error : ScanError
  pub ring : Ring
  pub devices : List Device
  pub own_mac : Text

unfoldable pub initial : Scanner
initial = record {
  active = false;
  enabled = true;
  last_scan = 0;
  scan_start = 0;
  scanning = false;
  scan_epoch = 0;
  last_tick = 0;
  scan_count = 0;
  filtered_count = 0;
  rssi_min = pos 0;
  rssi_max = pos 0;
  rssi_total = pos 0;
  last_device_count = 0;
  last_rssi_min = pos 0;
  last_rssi_max = pos 0;
  last_rssi_avg = pos 0;
  last_error = no_error;
  ring = Ring.initial;
  devices = [];
  own_mac = [];
}

-- BLE_MAX_DEVICES
abbrev pub max_devices : ℕ
max_devices = 50

unfoldable pub mark_filtered : Scanner → Scanner
mark_filtered s = record s { filtered_count = u32 (s.filtered_count + 1) }

unfoldable pub note_rssi : ℤ → Scanner → Scanner
note_rssi rssi s =
    if length s.devices == 0
    then record s { rssi_min = rssi; rssi_max = rssi; rssi_total = rssi }
    else record s {
      rssi_min = if ltb_ℤ rssi s.rssi_min then rssi else s.rssi_min;
      rssi_max = if ltb_ℤ s.rssi_max rssi then rssi else s.rssi_max;
      rssi_total = s.rssi_total +ℤ rssi;
    }

-- The test of the manufacturer data for a beacon.
unfoldable pub beacon_of : Text → Option (Text × ℕ × ℕ)
beacon_of bytes =
    if leb 26 (length bytes) && byte_at 1 bytes == 0xff then parse_ibeacon bytes else none

-- The five filters of the callback.
unfoldable pub is_filtered : BleConfig → Text → ℤ → Scanner → Bool
is_filtered c mac rssi s =
    (not (is_empty s.own_mac) && text_eq mac s.own_mac)
    || ltb_ℤ rssi c.rssi_threshold
    || not (mac_allowed c.allowlist c.denylist mac)
    || leb max_devices (length s.devices)
    || mac_in_ring mac s.ring

abbrev pub device_of : BleConfig → ℕ → Text → Advertisement → Scanner → Device
device_of c boot_salt mac adv s = record {
  mac = take 12 mac;
  public_id = take 23 (public_device_id boot_salt c mac s.scan_epoch);
  rssi = i8 adv.rssi;
  ibeacon = beacon_of adv.manufacturer_data;
}

-- What follows the filters.
unfoldable pub store_device : BleConfig → ℕ → ℕ → Advertisement → Scanner → Scanner
store_device c boot_salt now adv s =
    let mac = bare_mac adv.address in
    let noted = note_rssi adv.rssi s in
    record noted {
      ring = add_mac_to_ring mac now s.ring;
      devices = s.devices ++ device_of c boot_salt mac adv s ∷ [];
    }

-- `now` is the reading of `addMacToRing`.
unfoldable pub on_result : BleConfig → ℕ → ℕ → Advertisement → Scanner → Scanner
on_result c boot_salt now adv s =
    if not s.scanning
    then s
    else if is_filtered c (bare_mac adv.address) adv.rssi s
    then mark_filtered s
    else store_device c boot_salt now adv s

-- One entry of the message, its type general where `ibeacon` is none.
pub record Entry : Type 0 where
  pub id : Text
  pub mac : Option Text
  pub rssi : ℤ
  pub ibeacon : Option (Text × ℕ × ℕ)
  pub peer : Bool

pub record Report : Type 0 where
  pub devices : List Entry
  pub count : ℕ
  pub filtered_count : ℕ
  pub identity_mode : Text
  pub site_namespace : Text
  pub timestamp : ℕ

abbrev peer_of : Option (Text × ℕ × ℕ) → Bool
peer_of none = false
peer_of (some (uuid, _, _)) = is_forge_key_beacon uuid

abbrev entry_of : Bool → Device → Entry
entry_of raw d = record {
  id = d.public_id;
  mac = if raw then some d.mac else none;
  rssi = d.rssi;
  ibeacon = d.ibeacon;
  peer = peer_of d.ibeacon;
}

unfoldable pub report_of : BleConfig → ℕ → Scanner → Report
report_of c now s = record {
  devices = map (entry_of c.raw_mac_enabled) s.devices;
  count = length s.devices;
  filtered_count = s.filtered_count;
  identity_mode = if c.raw_mac_enabled then codes "raw" else c.identity_mode;
  site_namespace = c.site_namespace;
  timestamp = now;
}

-- The calls of the radio, and the message to the server.
pub data Effect : Type 0 where
  stop_scan : Effect
  start_scan : ℕ → Effect
  publish : Report → Effect

unfoldable pub abort_scan : ℕ → Scanner → Scanner × List Effect
abort_scan now s =
    (record s { scanning = false; last_scan = now; last_error = disabled_mid_scan }, stop_scan ∷ [])

-- The end of a scan: `published` is what publishBleDevices returns, if it is called.
unfoldable pub finish_scan : BleConfig → ℕ → Bool → Bool → Scanner → Scanner × List Effect
finish_scan c now connected published s =
    let publishes = ltb 0 (length s.devices) && connected in
    (
      record s {
        scanning = false;
        last_error = if publishes && not published then publish_failed else s.last_error;
        last_device_count = length s.devices;
        last_rssi_min = if length s.devices == 0 then pos 0 else s.rssi_min;
        last_rssi_max = if length s.devices == 0 then pos 0 else s.rssi_max;
        last_rssi_avg =
            if length s.devices == 0 then pos 0 else quotient s.rssi_total (length s.devices);
        devices = [];
        filtered_count = 0;
        rssi_total = pos 0;
        last_scan = now;
      },
      stop_scan ∷ (if publishes then publish (report_of c now s) ∷ [] else []),
    )

unfoldable pub begin_scan : BleConfig → ℕ → Scanner → Scanner × List Effect
begin_scan c now s = (
  record s {
    scanning = true;
    scan_start = now;
    devices = [];
    filtered_count = 0;
    rssi_total = pos 0;
    scan_epoch = now;
    scan_count = u32 (s.scan_count + 1);
  },
  start_scan c.scan_duration_s ∷ [],
)

unfoldable pub tick : BleConfig → ℕ → Bool → Bool → Scanner → Scanner × List Effect
tick c now connected published s =
    let t = record s { enabled = c.scanner_enabled; last_tick = now } in
    if not c.scanner_enabled && s.scanning
    then abort_scan now t
    else if s.scanning && leb (c.scan_duration_s * 1000) (elapsed now s.scan_start)
    then finish_scan c now connected published t
    else if not s.scanning && c.scanner_enabled && leb c.scan_interval_ms (elapsed now s.last_scan)
    then begin_scan c now t
    else (t, [])

-- `address` is WiFi.macAddress().
unfoldable pub setup : BleConfig → Text → Scanner → Scanner
setup c address s = record s {
  active = true;
  own_mac = bare_mac address;
  enabled = c.scanner_enabled;
}

-- The scanner, and whether it was enabled before.
unfoldable pub set_enabled : Bool → Scanner → Scanner × Bool
set_enabled on s = (record s { enabled = on }, s.enabled)
