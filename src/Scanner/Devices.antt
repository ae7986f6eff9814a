-- ===== src/Scanner/Devices.antt =====
-- Lists of devices: no address twice, and the statistics of their signals.
use forge_key.Prelude.{
  ℕ, zero, suc, ◌≡◌, ◌≢◌, ◌⊎◌, inl, inr, refl, ap, sym, ◌∙◌, subst, some, List, [], ◌∷◌, ◌++◌,
  arith, ◌==◌, length, get_elem?, All, All-append, ℤ, pos, ◌+ℤ◌, ◌≤ℤ◌, ltb_ℤ, true, false, Bool,
  if◌then◌else◌, lt_of_get_elem?,
}
use forge_key.Scanner.Scan.{Scanner, Device, note_rssi}

-- No two devices have one address.
abbrev pub Distinct : List Device → Type 0
Distinct [] = Unit
Distinct (d ∷ ds) = All (λ e. d.mac ≢ e.mac) ds × Distinct ds

unfoldable pub rssi_sum : List Device → ℤ
rssi_sum [] = pos 0
rssi_sum (d ∷ ds) = d.rssi +ℤ rssi_sum ds

-- One of the devices has the signal.
abbrev pub IsMet : ℤ → List Device → Type 0
IsMet rssi ds = (i : ℕ) × (d : Device) × (get_elem? ds i ≡ some d) × (d.rssi ≡ rssi)

-- The least, the greatest and the sum of the signals of some devices.
pub record IsTally (least greatest total : ℤ) (ds : List Device) : Type 0 where
  pub lower : All (λ d. least ≤ℤ d.rssi) ds
  pub upper : All (λ d. d.rssi ≤ℤ greatest) ds
  pub least_met : IsMet least ds
  pub greatest_met : IsMet greatest ds
  pub totalled : total ≡ rssi_sum ds

pub Distinct-append :
    (ds : List Device) (d : Device)
    → Distinct ds
    → All (λ e. e.mac ≢ d.mac) ds
    → Distinct (ds ++ d ∷ [])
Distinct-append [] d distinct new = (tt, tt)
Distinct-append (e ∷ ds) d distinct new = (
  All-append (λ x. e.mac ≢ x.mac) ds (d ∷ []) distinct.0 (new.0, tt),
  Distinct-append ds d distinct.1 new.1,
)

pub All-map {ℓ κ} :
    {A : Type ℓ} (P Q : A → Type κ) (xs : List A) → ((x : A) → P x → Q x) → All P xs → All Q xs
All-map P Q [] f h = tt
All-map P Q (x ∷ xs) f h = (f x h.0, All-map P Q xs f h.1)

get_elem?-append {ℓ} :
    {A : Type ℓ} (xs ys : List A) (i : ℕ) {a : A}
    → get_elem? xs i ≡ some a
    → get_elem? (xs ++ ys) i ≡ some a
get_elem?-append [] ys i e = cc
get_elem?-append (x ∷ xs) ys zero e = e
get_elem?-append (x ∷ xs) ys (suc i) e = get_elem?-append xs ys i e

get_elem?-append_last {ℓ} :
    {A : Type ℓ} (xs : List A) (a : A) → get_elem? (xs ++ a ∷ []) (length xs) ≡ some a
get_elem?-append_last [] a = refl
get_elem?-append_last (x ∷ xs) a = get_elem?-append_last xs a

+ℤ_assoc : (a b c : ℤ) → a +ℤ b +ℤ c ≡ a +ℤ (b +ℤ c)
unfolding ◌+ℤ◌
+ℤ_assoc a b c = ground arith

+ℤ_zero : (a : ℤ) → a +ℤ pos 0 ≡ a
unfolding ◌+ℤ◌
+ℤ_zero a = ground arith

zero_+ℤ : (a : ℤ) → pos 0 +ℤ a ≡ a
unfolding ◌+ℤ◌
zero_+ℤ a = ground arith

rssi_sum-append : (ds : List Device) (d : Device) → rssi_sum (ds ++ d ∷ []) ≡ rssi_sum ds +ℤ d.rssi
unfolding rssi_sum
rssi_sum-append [] d = +ℤ_zero d.rssi ∙ sym (zero_+ℤ d.rssi)
rssi_sum-append (e ∷ ds) d =
    ap (λ x. e.rssi +ℤ x) (rssi_sum-append ds d) ∙ sym (+ℤ_assoc e.rssi (rssi_sum ds) d.rssi)

-- The statistics of some devices before and after one more.
abbrev pub IsTallied : Scanner → Type 0
IsTallied s = (s.devices ≡ []) ⊎ IsTally s.rssi_min s.rssi_max s.rssi_total s.devices

first-IsTally : (d : Device) → IsTally d.rssi d.rssi d.rssi (d ∷ [])
unfolding rssi_sum
first-IsTally d = record {
  lower = (omega arith, tt);
  upper = (omega arith, tt);
  least_met = (0, d, refl, refl);
  greatest_met = (0, d, refl, refl);
  totalled = sym (+ℤ_zero d.rssi);
}

-- One of the old signals, or the new one.
IsMet-either :
    (b : Bool) (rssi : ℤ) (d : Device) (ds : List Device)
    → IsMet rssi ds
    → IsMet (if b then d.rssi else rssi) (ds ++ d ∷ [])
IsMet-either true rssi d ds met = (length ds, d, get_elem?-append_last ds d, refl)
IsMet-either false rssi d ds (i, e, at_i, same) = (i, e, get_elem?-append ds (d ∷ []) i at_i, same)

next-IsTally :
    (least greatest total : ℤ) (ds : List Device) (d : Device)
    → IsTally least greatest total ds
    → IsTally
        (if ltb_ℤ d.rssi least then d.rssi else least)
        (if ltb_ℤ greatest d.rssi then d.rssi else greatest)
        (total +ℤ d.rssi)
        (ds ++ d ∷ [])
next-IsTally least greatest total ds d t = record {
  lower =
      let low = if ltb_ℤ d.rssi least then d.rssi else least in
      All-append (λ e. low ≤ℤ e.rssi) ds (d ∷ [])
        (All-map (λ e. least ≤ℤ e.rssi) (λ e. low ≤ℤ e.rssi) ds (λ e h. ground arith) t.lower)
        (ground arith, tt);
  upper =
      let high = if ltb_ℤ greatest d.rssi then d.rssi else greatest in
      All-append (λ e. e.rssi ≤ℤ high) ds (d ∷ [])
        (All-map (λ e. e.rssi ≤ℤ greatest) (λ e. e.rssi ≤ℤ high) ds (λ e h. ground arith) t.upper)
        (ground arith, tt);
  least_met = IsMet-either (ltb_ℤ d.rssi least) least d ds t.least_met;
  greatest_met = IsMet-either (ltb_ℤ greatest d.rssi) greatest d ds t.greatest_met;
  totalled = ap (λ x. x +ℤ d.rssi) t.totalled ∙ sym (rssi_sum-append ds d);
}

pub note_rssi-IsTally :
    (s : Scanner) (d : Device)
    → IsTallied s
    → let n = note_rssi d.rssi s in IsTally n.rssi_min n.rssi_max n.rssi_total (s.devices ++ d ∷ [])
unfolding note_rssi
note_rssi-IsTally s d (inl empty) =
    let first : (length s.devices == 0) ≡ true = ap (λ (ds : List Device). length ds == 0) empty in
    simp first
      (subst (λ ds. IsTally d.rssi d.rssi d.rssi (ds ++ d ∷ [])) (sym empty) (first-IsTally d))
note_rssi-IsTally s d (inr t) =
    let some_device = lt_of_get_elem? s.devices t.least_met.0 t.least_met.2 in
    let later : (length s.devices == 0) ≡ false = ground (arith, some_device) in
    simp later (next-IsTally s.rssi_min s.rssi_max s.rssi_total s.devices d t)
