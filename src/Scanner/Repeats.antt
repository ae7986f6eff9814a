-- ===== src/Scanner/Repeats.antt =====
-- What the scanner promises of the devices at hand, and how long an address stays filtered.
use forge_key.Prelude.{
  ℕ, ◌+◌, ◌≤◌, ◌≡◌, refl, ◌∙◌, sym, subst, ap, true, false, List, [], ◌∷◌, ◌++◌, arith, length, All,
  Text, get_elem?, some, length-append,
}
use forge_key.Ble.Config.{BleConfig}
use forge_key.Scanner.Advert.{Advertisement, bare_mac}
use forge_key.Scanner.Ring.{mac_in_ring}
use forge_key.Scanner.Window.{mac_in_ring_of_recent}
use forge_key.Scanner.Scan.{Scanner, initial, on_result, is_filtered, store_device, mark_filtered}
use forge_key.Scanner.Devices.{Distinct, IsTallied}
use forge_key.Scanner.Calls.{Call, run}
use forge_key.Scanner.Invariant.{
  IsValid, IsByte, FitsByte, IsLater, initial-IsValid, run-IsLater, store_device-IsValid,
}

-- After any calls the devices of the scan are at most fifty, no two of them have one address, and
-- where there are any, the least, the greatest and the sum of their signals are the ones that the
-- scanner keeps. The signals fit a byte.
pub run-IsSound :
    (calls : List Call)
    → All FitsByte calls
    → let s = run calls initial in (length s.devices ≤ 50) × Distinct s.devices × IsTallied s
run-IsSound calls small =
    let v = (run-IsLater calls [] initial initial-IsValid small).valid in
    (v.few, v.distinct, v.tally)

ne_suc : (n : ℕ) → n ≡ n + 1 → ⊥
ne_suc n e = omega arith

stored-passes :
    (c : BleConfig) (boot_salt now : ℕ) (adv : Advertisement) (s : Scanner)
    → (on_result c boot_salt now adv s).ring.head ≡ s.ring.head + 1
    → (is_filtered c (bare_mac adv.address) adv.rssi s ≡ false)
      × (on_result c boot_salt now adv s ≡ store_device c boot_salt now adv s)
unfolding on_result mark_filtered
stored-passes c boot_salt now adv s stored = ground (arith, ne_suc s.ring.head)

get_elem?-append_right {ℓ} :
    {A : Type ℓ} (xs : List A) (y : A) (ys : List A) → get_elem? (xs ++ y ∷ ys) (length xs) ≡ some y
get_elem?-append_right [] y ys = refl
get_elem?-append_right (x ∷ xs) y ys = get_elem?-append_right xs y ys

-- A known address is filtered.
known-filtered :
    (c : BleConfig) (boot_salt now : ℕ) (adv : Advertisement) (s : Scanner)
    → mac_in_ring (bare_mac adv.address) s.ring ≡ true
    → let t = on_result c boot_salt now adv s in (t.devices ≡ s.devices) × (t.ring ≡ s.ring)
unfolding on_result mark_filtered is_filtered
known-filtered c boot_salt now adv s known = ground arith

-- The address that was stored is in the ring of a later state.
still_known :
    (h : List Text) (mac : Text) (head : ℕ) (t : Scanner)
    → IsLater (mac ∷ h) t
    → length h ≡ head
    → t.ring.head ≤ head + 60
    → mac_in_ring mac t.ring ≡ true
still_known h mac head t later counted within =
    let history_length : length later.history ≡ length later.fresh + length (mac ∷ h) =
      ap length later.extends ∙ length-append later.fresh (mac ∷ h) in
    let recent : length later.fresh + 1 ≤ 60 =
      omega (arith, history_length, later.valid.tracked.head_counts, counted) in
    mac_in_ring_of_recent later.history t.ring later.valid.tracked mac (length later.fresh)
      (omega (arith, recent))
      (ap (λ (l : List Text). get_elem? l (length later.fresh)) later.extends
        ∙ get_elem?-append_right later.fresh mac h)

-- An address that was stored is filtered out until sixty more are stored, through all calls in
-- between, also where its scan was aborted or its report not published: a result with that address
-- changes neither the devices nor the ring. That it was stored shows in the head of the ring.
pub repeats_suppressed :
    (before after : List Call) (c c' : BleConfig) (boot_salt now boot_salt' now' : ℕ)
    (adv adv' : Advertisement)
    → let s = run before initial in
      let stored = on_result c boot_salt now adv s in
      let t = run after stored in
      let again = on_result c' boot_salt' now' adv' t in
      All FitsByte before
      → All FitsByte after
      → IsByte adv.rssi
      → stored.ring.head ≡ s.ring.head + 1
      → t.ring.head ≤ s.ring.head + 60
      → bare_mac adv'.address ≡ bare_mac adv.address
      → (again.devices ≡ t.devices) × (again.ring ≡ t.ring)
repeats_suppressed before after c c' boot_salt now boot_salt' now' adv adv' small_before small_after
      small grown within same =
    let s = run before initial in
    let mac = bare_mac adv.address in
    let first = run-IsLater before [] initial initial-IsValid small_before in
    let (passes, equal) = stored-passes c boot_salt now adv s grown in
    let stored_valid : IsValid (mac ∷ first.history) (on_result c boot_salt now adv s) =
      subst (IsValid (mac ∷ first.history)) (sym equal)
        (store_device-IsValid c boot_salt now adv first.history s first.valid small passes) in
    let t = run after (on_result c boot_salt now adv s) in
    let later =
      run-IsLater after (mac ∷ first.history) (on_result c boot_salt now adv s) stored_valid
        small_after in
    let known =
      still_known first.history mac s.ring.head t later (sym first.valid.tracked.head_counts)
        within in
    known-filtered c' boot_salt' now' adv' t
      (subst (λ m. mac_in_ring m t.ring ≡ true) (sym same) known)
