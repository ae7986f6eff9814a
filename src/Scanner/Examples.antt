-- ===== src/Scanner/Examples.antt =====
-- A scan that finds a device, ends while the broker is away, and a second scan that meets it again.
use forge_key.Prelude.{
  ◌≡◌, refl, ◌≤◌, true, false, List, [], ◌∷◌, arith, length, All, codes, negsuc, replicate, ◌+◌,
  text_eq,
}
use forge_key.Ble.Config
use forge_key.Ble.Config.{BleConfig}
use forge_key.Scanner.Advert.{Advertisement, bare_mac}
use forge_key.Ble.Lists.{mac_allowed}
use forge_key.Scanner.Ring
use forge_key.Scanner.Ring.{mac_in_ring, add_mac_to_ring}
use forge_key.Scanner.Scan
use forge_key.Scanner.Scan.{
  initial, on_result, setup, begin_scan, finish_scan, is_filtered, store_device, note_rssi,
}
use forge_key.Scanner.Devices.{Distinct, IsTallied}
use forge_key.Scanner.Calls.{Call, result, tick, begin, run, reports}
use forge_key.Scanner.Beacons.{IsGeneral, no_beacon_reported}
use forge_key.Scanner.Repeats.{run-IsSound, repeats_suppressed}

abbrev config : BleConfig
config = Config.initial true

-- Its data have the layout of an iBeacon that the callback looks for.
abbrev tag : Advertisement
tag = record {
  address = codes "AA:BB:CC:DD:EE:FF";
  rssi = negsuc 59;
  manufacturer_data = 0x02 ∷ 0xff ∷ replicate 24 7;
}

abbrev first_scan : List Call
first_scan = begin config (codes "01:02:03:04:05:06") ∷ tick config 60000 true true ∷ []

-- The scan ends while MQTT is down, and the next one begins.
abbrev lost : List Call
lost = tick config 65000 false false ∷ tick config 125000 true true ∷ []

abbrev found : List Call
found =
    begin config (codes "01:02:03:04:05:06")
    ∷ tick config 60000 true true
    ∷ result config 0 61000 tag
    ∷ []

abbrev reported : List Call
reported =
    tick config 60000 true true ∷ result config 0 61000 tag ∷ tick config 65000 true true ∷ []

run-IsSound_example :
    let s = run found initial in (length s.devices ≤ 50) × Distinct s.devices × IsTallied s
run-IsSound_example = run-IsSound found (tt, (tt, ((omega arith, omega arith), tt)))

no_beacon_reported_example : All (λ r. All IsGeneral r.devices) (reports reported initial)
no_beacon_reported_example = no_beacon_reported reported

one_report : length (reports reported initial) ≡ 1
unfolding reports Scan.tick Config.initial setup initial begin_scan finish_scan on_result
    is_filtered bare_mac mac_allowed mac_in_ring text_eq Ring.initial store_device add_mac_to_ring
    note_rssi
one_report = refl

one_more :
    (on_result config 0 61000 tag (run first_scan initial)).ring.head
    ≡ (run first_scan initial).ring.head + 1
unfolding run Scan.tick Config.initial setup initial begin_scan on_result is_filtered bare_mac
    mac_allowed mac_in_ring text_eq Ring.initial store_device add_mac_to_ring note_rssi
one_more = refl

few :
    (run lost (on_result config 0 61000 tag (run first_scan initial))).ring.head
    ≤ (run first_scan initial).ring.head + 60
unfolding run Scan.tick Config.initial setup initial begin_scan finish_scan on_result is_filtered
    bare_mac mac_allowed mac_in_ring text_eq Ring.initial store_device add_mac_to_ring note_rssi
few = omega arith

repeats_suppressed_example :
    let t = run lost (on_result config 0 61000 tag (run first_scan initial)) in
    let again = on_result config 0 126000 tag t in
    (again.devices ≡ t.devices) × (again.ring ≡ t.ring)
repeats_suppressed_example =
    repeats_suppressed first_scan lost config config 0 61000 0 126000 tag tag (tt, (tt, tt))
      (tt, (tt, tt)) (omega arith, omega arith) one_more few refl
