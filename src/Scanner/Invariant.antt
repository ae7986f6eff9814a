-- ===== src/Scanner/Invariant.antt =====
-- What holds of the scanner after any calls: the devices at hand are few, distinct and known to the
-- ring, and the statistics of their signals are right.
use forge_key.Scanner.Scan
use forge_key.Prelude.{
  ℕ, suc, ◌≤◌, ◌<◌, ◌≡◌, ◌≢◌, inr, ap, sym, ◌∙◌, subst, true, false, some, List, [], ◌∷◌, ◌++◌,
  arith, length, length-append, get_elem?, All, All-append, Text, ℤ, pos, negsuc, ◌≤ℤ◌, i8_small,
  Bool, inl, not, ◌&&◌, leb, ◌*◌, if_both, if_cases, elapsed, refl, ◌*◌, length-take-le, take_all,
}
use forge_key.Ble.Config.{BleConfig}
use forge_key.Scanner.Ring.{mac_in_ring}
use forge_key.Scanner.Advert.{Advertisement, bare_mac}
use forge_key.Scanner.Window.{Tracks, add_mac_to_ring-Tracks, mac_in_ring_of_recent, initial-Tracks}
use forge_key.Scanner.Scan.{
  Scanner, Device, device_of, note_rssi, store_device, is_filtered, mark_filtered, on_result,
  abort_scan, finish_scan, setup, begin_scan, set_enabled, Effect, initial,
}
use forge_key.Scanner.Devices.{
  Distinct, Distinct-append, All-map, IsTally, IsTallied, note_rssi-IsTally,
}
use mathlib.Core.List.{append_assoc}
use forge_key.Scanner.Calls.{Call, result, step, run, tick, enable, begin}

-- The device is one of the last `n` addresses of the history.
abbrev IsRecent : List Text → ℕ → Device → Type 0
IsRecent h n d = (i : ℕ) × (i < n) × (get_elem? h i ≡ some d.mac)

pub record IsValid (h : List Text) (s : Scanner) : Type 0 where
  pub tracked : Tracks h s.ring
  pub few : length s.devices ≤ 50
  pub recent : All (IsRecent h (length s.devices)) s.devices
  pub distinct : Distinct s.devices
  pub tally : IsTallied s

-- The signal fits the byte that a device keeps it in.
abbrev pub IsByte : ℤ → Type 0
IsByte rssi = (negsuc 127 ≤ℤ rssi) × (rssi ≤ℤ pos 127)

abbrev pub FitsByte : Call → Type 0
FitsByte (result c boot_salt now adv) = IsByte adv.rssi
FitsByte _ = Unit

short_bare_mac : (address : Text) → length (bare_mac address) ≤ 12
unfolding bare_mac
short_bare_mac address = length-take-le 12 _

unfiltered :
    (c : BleConfig) (mac : Text) (rssi : ℤ) (s : Scanner)
    → is_filtered c mac rssi s ≡ false
    → (length s.devices < 50) × (mac_in_ring mac s.ring ≡ false)
unfolding is_filtered
unfiltered c mac rssi s passes = ground arith

-- An address that is not in the ring differs from those of the devices at hand.
new_address :
    (h : List Text) (s : Scanner) (mac : Text)
    → IsValid h s
    → mac_in_ring mac s.ring ≡ false
    → All (λ e. e.mac ≢ mac) s.devices
new_address h s mac v new =
    All-map (IsRecent h (length s.devices)) (λ e. e.mac ≢ mac) s.devices
      (λ e (i, inside, at_i) same.
        let found : mac_in_ring mac s.ring ≡ true =
          mac_in_ring_of_recent h s.ring v.tracked mac i (omega (arith, v.few))
            (at_i ∙ ap some same) in
        cc)
      v.recent

pub store_device-IsValid :
    (c : BleConfig) (boot_salt now : ℕ) (adv : Advertisement) (h : List Text) (s : Scanner)
    → IsValid h s
    → IsByte adv.rssi
    → is_filtered c (bare_mac adv.address) adv.rssi s ≡ false
    → IsValid (bare_mac adv.address ∷ h) (store_device c boot_salt now adv s)
unfolding store_device
store_device-IsValid c boot_salt now adv h s v small passes =
    let mac = bare_mac adv.address in
    let short = short_bare_mac adv.address in
    let whole = take_all 12 mac short in
    let (room, new) = unfiltered c mac adv.rssi s passes in
    let d : Device = device_of c boot_salt mac adv s in
    let longer = length-append s.devices (d ∷ []) in
    let n = length (s.devices ++ d ∷ []) in
    let others : All (λ e. e.mac ≢ d.mac) s.devices =
      subst (λ m. All (λ (e : Device). e.mac ≢ m) s.devices) (sym whole)
        (new_address h s mac v new) in
    record {
      tracked = add_mac_to_ring-Tracks h s.ring mac now v.tracked short;
      few = omega (arith, longer, room);
      recent =
          All-append (IsRecent (mac ∷ h) n) s.devices (d ∷ [])
            (All-map (IsRecent h (length s.devices)) (IsRecent (mac ∷ h) n) s.devices
              (λ e (i, inside, at_i). (suc i, omega (arith, longer), at_i)) v.recent)
            ((0, omega (arith, longer), ap some (sym whole)), tt);
      distinct = Distinct-append s.devices d v.distinct others;
      tally = inr (
          subst
            (λ rssi.
              let m = note_rssi rssi s in
              IsTally m.rssi_min m.rssi_max m.rssi_total (s.devices ++ d ∷ []))
            (i8_small adv.rssi small.0 small.1) (note_rssi-IsTally s d v.tally));
    }

-- A later history has the earlier one at its end.
pub record IsLater (h : List Text) (s : Scanner) : Type 0 where
  pub history : List Text
  pub fresh : List Text
  pub valid : IsValid history s
  pub extends : history ≡ fresh ++ h

unchanged : (h : List Text) (s : Scanner) → IsValid h s → IsLater h s
unchanged h s v = record { history = h; fresh = []; valid = v; extends = refl }

mark_filtered-IsValid : (h : List Text) (s : Scanner) → IsValid h s → IsValid h (mark_filtered s)
unfolding mark_filtered
mark_filtered-IsValid h s v = record {
  tracked = v.tracked;
  few = v.few;
  recent = v.recent;
  distinct = v.distinct;
  tally = v.tally;
}

on_result-IsLater :
    (c : BleConfig) (boot_salt now : ℕ) (adv : Advertisement) (h : List Text) (s : Scanner)
    → IsValid h s
    → IsByte adv.rssi
    → IsLater h (on_result c boot_salt now adv s)
unfolding on_result
on_result-IsLater c boot_salt now adv h s v small =
    let same = unchanged h s v in
    let mac = bare_mac adv.address in
    if_cases (IsLater h) (not s.scanning) (λ idle. same)
      (λ scanning.
        if_cases (IsLater h) (is_filtered c mac adv.rssi s)
          (λ filtered. unchanged h (mark_filtered s) (mark_filtered-IsValid h s v))
          (λ passes. record {
            history = mac ∷ h;
            fresh = mac ∷ [];
            valid = store_device-IsValid c boot_salt now adv h s v small passes;
            extends = refl;
          }))

tick-IsValid :
    (c : BleConfig) (now : ℕ) (connected published : Bool) (h : List Text) (s : Scanner)
    → IsValid h s
    → IsValid h (Scan.tick c now connected published s).0
unfolding Scan.tick abort_scan finish_scan begin_scan
tick-IsValid c now connected published h s v =
    let P : Scanner × List Effect → Type 0 = λ r. IsValid h r.0 in
    if_both P (not c.scanner_enabled && s.scanning)
      (record {
        tracked = v.tracked;
        few = v.few;
        recent = v.recent;
        distinct = v.distinct;
        tally = v.tally;
      })
      (if_both P (s.scanning && leb (c.scan_duration_s * 1000) (elapsed now s.scan_start))
        (record {
          tracked = v.tracked;
          few = omega arith;
          recent = tt;
          distinct = tt;
          tally = inl refl;
        })
        (if_both P
          (not s.scanning && c.scanner_enabled && leb c.scan_interval_ms (elapsed now s.last_scan))
          (record {
            tracked = v.tracked;
            few = omega arith;
            recent = tt;
            distinct = tt;
            tally = inl refl;
          })
          (record {
            tracked = v.tracked;
            few = v.few;
            recent = v.recent;
            distinct = v.distinct;
            tally = v.tally;
          })))

step-IsLater :
    (call : Call) (h : List Text) (s : Scanner)
    → IsValid h s
    → FitsByte call
    → IsLater h (step call s).0
unfolding step setup set_enabled
step-IsLater (result c boot_salt now adv) h s v small =
    on_result-IsLater c boot_salt now adv h s v small
step-IsLater (tick c now connected published) h s v small =
    unchanged h (Scan.tick c now connected published s).0
      (tick-IsValid c now connected published h s v)
step-IsLater (enable on) h s v small = unchanged h (set_enabled on s).0 (record {
  tracked = v.tracked;
  few = v.few;
  recent = v.recent;
  distinct = v.distinct;
  tally = v.tally;
})
step-IsLater (begin c address) h s v small = unchanged h (setup c address s) (record {
  tracked = v.tracked;
  few = v.few;
  recent = v.recent;
  distinct = v.distinct;
  tally = v.tally;
})

pub run-IsLater :
    (calls : List Call) (h : List Text) (s : Scanner)
    → IsValid h s
    → All FitsByte calls
    → IsLater h (run calls s)
unfolding run
run-IsLater [] h s v small = unchanged h s v
run-IsLater (call ∷ calls) h s v small =
    let first = step-IsLater call h s v small.0 in
    let rest = run-IsLater calls first.history (step call s).0 first.valid small.1 in
    record {
      history = rest.history;
      fresh = rest.fresh ++ first.fresh;
      valid = rest.valid;
      extends =
          rest.extends
          ∙ ap (λ l. rest.fresh ++ l) first.extends
          ∙ sym (append_assoc rest.fresh first.fresh h);
    }

pub initial-IsValid : IsValid [] initial
unfolding initial
initial-IsValid = record {
  tracked = initial-Tracks;
  few = omega arith;
  recent = tt;
  distinct = tt;
  tally = inl refl;
}
