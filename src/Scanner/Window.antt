-- ===== src/Scanner/Window.antt =====
-- The ring against the history of the addresses that it was given.
use forge_key.Prelude.{
  ℕ, zero, suc, ◌+◌, ◌-◌, ◌%◌, ◌≤◌, ◌<◌, ◌≡◌, ◌≢◌, ◌↔◌, inl, inr, refl, ap, sym, ◌∙◌, subst, true,
  Option, none, some, List, [], ◌∷◌, arith, ltb, length, length-modify, get_elem?, take, Text,
  text_eq, text_eq-eq, text_eq_self, Bool-cases, if◌then◌else◌, get_elem?-modify_self,
  lt_of_get_elem?, take_all, get_elem?-take, length-take-le, get_elem?-modify_ne, get_elem?_of_lt,
}
use forge_key.Scanner.Ring.{MacEntry, Ring, initial, holds_mac, mac_in_ring, add_mac_to_ring}
use forge_key.Ble.Lists.{IsListed}

-- A slot holds an address.
abbrev Holds : List MacEntry → ℕ → Text → Type 0
Holds slots j mac = (e : MacEntry) × (get_elem? slots j ≡ some e) × (e.mac ≡ mac)

-- `h` are all addresses so far, the newest first; the last 60 stand in their slots.
pub record Tracks (h : List Text) (r : Ring) : Type 0 where
  pub sized : length r.slots ≡ 60
  pub head_counts : r.head ≡ length h
  pub counted : r.count ≡ (if ltb (length h) 60 then length h else 60)
  pub held :
      (i : ℕ) (mac : Text)
      → i < 60
      → get_elem? h i ≡ some mac
      → Holds r.slots ((length h - suc i) % 60) mac

pub initial-Tracks : Tracks [] initial
unfolding initial
initial-Tracks = record {
  sized = refl;
  head_counts = refl;
  counted = refl;
  held = λ i mac few e. absurd (cc);
}

held-add :
    (h : List Text) (r : Ring) (mac : Text) (now : ℕ)
    → Tracks h r
    → length mac ≤ 12
    → (i : ℕ) (m : Text) → i < 60
    → get_elem? (mac ∷ h) i ≡ some m
    → Holds (add_mac_to_ring mac now r).slots ((length (mac ∷ h) - suc i) % 60) m
unfolding add_mac_to_ring
held-add h r mac now t short zero m few e =
    let entry : MacEntry = record { mac = take 12 mac; ts = now } in
    let place : (suc (length h) - 1) % 60 ≡ r.head % 60 = omega (arith, t.head_counts) in
    rw place (
      entry,
      (get_elem?-modify_self (r.head % 60) (λ old. entry) r.slots (omega (arith, t.sized))).1,
      take_all 12 mac short ∙ (cc),
    )
held-add h r mac now t short (suc i) m few e =
    let inside = lt_of_get_elem? h i e in
    let old = t.held i m (omega arith) e in
    let entry : MacEntry = record { mac = take 12 mac; ts = now } in
    let place : suc (length h) - suc (suc i) ≡ length h - suc i = omega arith in
    let other : r.head % 60 ≢ (length h - suc i) % 60 = omega (arith, t.head_counts, inside) in
    rw place (
      old.0,
      get_elem?-modify_ne (r.head % 60) ((length h - suc i) % 60) (λ o. entry) r.slots other
          ∙ old.1,
      old.2,
    )

pub add_mac_to_ring-Tracks :
    (h : List Text) (r : Ring) (mac : Text) (now : ℕ)
    → Tracks h r
    → length mac ≤ 12
    → Tracks (mac ∷ h) (add_mac_to_ring mac now r)
unfolding add_mac_to_ring
add_mac_to_ring-Tracks h r mac now t short = record {
  sized =
      length-modify (r.head % 60) (λ old. record { mac = take 12 mac; ts = now }) r.slots ∙ t.sized;
  head_counts = omega (arith, t.head_counts);
  counted = ground (arith, t.counted);
  held = held-add h r mac now t short;
}

-- A list of entries has an address exactly if one of its slots holds it.
holds_mac_iff :
    (es : List MacEntry) (mac : Text) → (holds_mac es mac ≡ true) ↔ ((j : ℕ) × Holds es j mac)
unfolding holds_mac
holds_mac_iff es mac = (found es, λ (j, at_slot). holds es j at_slot.0 at_slot.1 at_slot.2)
  where
    found : (es : List MacEntry) → holds_mac es mac ≡ true → (j : ℕ) × Holds es j mac
    found [] h = cc
    found (e ∷ es) h = elim (Bool-cases (text_eq e.mac mac)) [
      | inl same ↦ (0, (e, refl, text_eq-eq e.mac mac same))
      | inr other ↦ let (j, rest) = found es (simp other at h) in (suc j, rest)
    ]

    holds :
        (es : List MacEntry) (j : ℕ) (e : MacEntry)
        → get_elem? es j ≡ some e
        → e.mac ≡ mac
        → holds_mac es mac ≡ true
    holds [] j e at_j same = cc
    holds (x ∷ xs) zero e at_j same =
        let head_mac : x.mac ≡ mac =
          ap (λ (o : Option MacEntry). elim o [ none ↦ mac | some y ↦ y.mac ]) at_j ∙ same in
        simp (subst (λ t. text_eq t mac ≡ true) (sym head_mac) (text_eq_self mac)) refl
    holds (x ∷ xs) (suc j) e at_j same = ground (arith, holds xs j e at_j same)

module _ (h : List Text) (r : Ring) (t : Tracks h r) (mac : Text) where
  pub mac_in_ring_of_recent : (i : ℕ) → i < 60 → get_elem? h i ≡ some mac → mac_in_ring mac r ≡ true
  unfolding mac_in_ring
  mac_in_ring_of_recent i few e =
      let (entry, at_j, same) = t.held i mac few e in
      let j = (length h - suc i) % 60 in
      let inside : j < r.count = ground (arith, t.counted, lt_of_get_elem? h i e) in
      (holds_mac_iff (take r.count r.slots) mac).1
        (j, (entry, get_elem?-take r.count j r.slots inside ∙ at_j, same))

  recent_of_mac_in_ring : mac_in_ring mac r ≡ true → IsListed mac (take 60 h)
  unfolding mac_in_ring
  recent_of_mac_in_ring found =
      let (j, slot) = (holds_mac_iff (take r.count r.slots) mac).0 found in
      let (entry, at_j, same) = slot in
      let taken = lt_of_get_elem? (take r.count r.slots) j at_j in
      let inside : j < r.count = omega (arith, taken, length-take-le r.count r.slots) in
      let i = (length h + 59 - j) % 60 in
      let few : i < 60 = omega arith in
      let old : i < length h = ground (arith, t.counted, inside) in
      let (m, at_i) = get_elem?_of_lt h i old in
      let (entry', at_j', same') = t.held i m few at_i in
      let place : (length h - suc i) % 60 ≡ j = ground (arith, t.counted, inside) in
      let at_slot = sym (get_elem?-take r.count j r.slots inside) ∙ at_j in
      let moved = subst (λ k. get_elem? r.slots k ≡ some entry') place at_j' in
      let equal : entry' ≡ entry = cc in
      let named : m ≡ mac = sym same' ∙ ap (λ (x : MacEntry). x.mac) equal ∙ same in
      (i, get_elem?-take 60 i h few ∙ at_i ∙ ap some named)

  -- The ring holds an address exactly if it is one of the last sixty that it was given.
  pub mac_in_ring_iff : (mac_in_ring mac r ≡ true) ↔ IsListed mac (take 60 h)
  mac_in_ring_iff = (
    recent_of_mac_in_ring,
    λ (i, e).
        let few : i < 60 = omega (arith, lt_of_get_elem? (take 60 h) i e, length-take-le 60 h) in
        mac_in_ring_of_recent i few (sym (get_elem?-take 60 i h few) ∙ e),
  )
