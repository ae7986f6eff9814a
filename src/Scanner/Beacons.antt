-- ===== src/Scanner/Beacons.antt =====
-- The beacons that the scanner looks for, and never reports.
use forge_key.Prelude.{
  ℕ, ◌≡◌, Bool, false, not, ◌&&◌, none, List, [], ◌∷◌, arith, leb, ltb, length, All, All-append,
  Text, if_both, elapsed, ◌*◌,
}
use forge_key.Ble.Config.{BleConfig}
use forge_key.Scanner.Advert.{Advertisement, bare_mac, parse_ibeacon}
use forge_key.Scanner.Scan
use forge_key.Scanner.Scan.{
  Scanner, Device, Entry, Report, Effect, stop_scan, start_scan, publish, beacon_of, store_device,
  mark_filtered, note_rssi, is_filtered, on_result, report_of, abort_scan, finish_scan, begin_scan,
  setup, set_enabled, initial,
}
use forge_key.Scanner.Calls.{Call, result, tick, enable, begin, step, reports, reports_of}

abbrev IsPlain : Scanner → Type 0
IsPlain s = All (λ d. d.ibeacon ≡ none) s.devices

-- An entry of type general, and no peer.
pub record IsGeneral (e : Entry) : Type 0 where
  pub no_beacon : e.ibeacon ≡ none
  pub no_peer : e.peer ≡ false

-- The callback wants 0xff in the byte in which the parser wants 0x15.
beacon_of-none : (bytes : Text) → beacon_of bytes ≡ none
unfolding beacon_of parse_ibeacon
beacon_of-none bytes = ground arith

store_device-IsPlain :
    (c : BleConfig) (boot_salt now : ℕ) (adv : Advertisement) (s : Scanner)
    → IsPlain s
    → IsPlain (store_device c boot_salt now adv s)
unfolding store_device
store_device-IsPlain c boot_salt now adv s plain =
    All-append (λ d. d.ibeacon ≡ none) s.devices (_ ∷ []) plain
      (beacon_of-none adv.manufacturer_data, tt)

on_result-IsPlain :
    (c : BleConfig) (boot_salt now : ℕ) (adv : Advertisement) (s : Scanner)
    → IsPlain s
    → IsPlain (on_result c boot_salt now adv s)
unfolding on_result mark_filtered
on_result-IsPlain c boot_salt now adv s plain = if_both IsPlain (not s.scanning) plain (
    if_both IsPlain (is_filtered c (bare_mac adv.address) adv.rssi s) plain
      (store_device-IsPlain c boot_salt now adv s plain))

map-IsGeneral :
    (c : BleConfig) (now : ℕ) (ds : List Device)
    → All (λ d. d.ibeacon ≡ none) ds
    → All IsGeneral (report_of c now (record initial { devices = ds })).devices
unfolding report_of initial
map-IsGeneral c now [] plain = tt
map-IsGeneral c now (d ∷ ds) plain =
    (record { no_beacon = plain.0; no_peer = ground arith }, map-IsGeneral c now ds plain.1)

abbrev AreGeneral : List Report → Type 0
AreGeneral = All (λ r. All IsGeneral r.devices)

tick-IsPlain :
    (c : BleConfig) (now : ℕ) (connected published : Bool) (s : Scanner)
    → IsPlain s
    → let r = Scan.tick c now connected published s in IsPlain r.0 × AreGeneral (reports_of r.1)
unfolding Scan.tick abort_scan finish_scan begin_scan report_of initial
tick-IsPlain c now connected published s plain =
    let P : Scanner × List Effect → Type 0 = λ r. IsPlain r.0 × AreGeneral (reports_of r.1) in
    if_both P (not c.scanner_enabled && s.scanning) (plain, tt)
      (if_both P (s.scanning && leb (c.scan_duration_s * 1000) (elapsed now s.scan_start))
        (
          tt,
          if_both (λ es. AreGeneral (reports_of (stop_scan ∷ es)))
              (ltb 0 (length s.devices) && connected) (map-IsGeneral c now s.devices plain, tt) tt,
        )
        (if_both P
          (not s.scanning && c.scanner_enabled && leb c.scan_interval_ms (elapsed now s.last_scan))
          (tt, tt) (plain, tt)))

reports-AreGeneral : (calls : List Call) (s : Scanner) → IsPlain s → AreGeneral (reports calls s)
unfolding reports step setup set_enabled
reports-AreGeneral [] s plain = tt
reports-AreGeneral (result c boot_salt now adv ∷ calls) s plain =
    reports-AreGeneral calls (on_result c boot_salt now adv s)
      (on_result-IsPlain c boot_salt now adv s plain)
reports-AreGeneral (tick c now connected published ∷ calls) s plain =
    let r = Scan.tick c now connected published s in
    let (kept, general) = tick-IsPlain c now connected published s plain in
    All-append (λ r. All IsGeneral r.devices) (reports_of r.1) (reports calls r.0) general
      (reports-AreGeneral calls r.0 kept)
reports-AreGeneral (enable on ∷ calls) s plain = reports-AreGeneral calls (set_enabled on s).0 plain
reports-AreGeneral (begin c address ∷ calls) s plain =
    reports-AreGeneral calls (setup c address s) plain

-- The scanner never reports a beacon or a ForgeKey peer, whatever it is called with and whatever is
-- advertised: each entry of each report is of type general.
pub no_beacon_reported :
    (calls : List Call) → All (λ r. All IsGeneral r.devices) (reports calls initial)
unfolding initial
no_beacon_reported calls = reports-AreGeneral calls initial tt
