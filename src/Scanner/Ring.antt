-- ===== src/Scanner/Ring.antt =====
-- The ring that filters repeated addresses: `macInRing` and `addMacToRing`.
use forge_key.Prelude.{
  ℕ, ◌+◌, ◌%◌, Bool, false, ◌||◌, List, [], ◌∷◌, ltb, if◌then◌else◌, take, replicate, modify, Text,
  text_eq,
}

pub record MacEntry : Type 0 where
  pub mac : Text
  pub ts : ℕ

-- g_macRing, g_macRingHead and g_macRingCount; the head only grows, and is reduced where it is used.
pub record Ring : Type 0 where
  pub slots : List MacEntry
  pub head : ℕ
  pub count : ℕ

-- BLE_DEDUP_WINDOW
abbrev pub dedup_window : ℕ
dedup_window = 60

abbrev blank : MacEntry
blank = record { mac = []; ts = 0 }

unfoldable pub initial : Ring
initial = record { slots = replicate dedup_window blank; head = 0; count = 0 }

unfoldable pub holds_mac : List MacEntry → Text → Bool
holds_mac [] mac = false
holds_mac (e ∷ es) mac = text_eq e.mac mac || holds_mac es mac

unfoldable pub mac_in_ring : Text → Ring → Bool
unfolding holds_mac
mac_in_ring mac r = holds_mac (take r.count r.slots) mac

-- The head of the source is an int, which the model takes to stay below 2^31.
unfoldable pub add_mac_to_ring : Text → ℕ → Ring → Ring
add_mac_to_ring mac now r = record {
  slots = modify (r.head % dedup_window) (λ old. record { mac = take 12 mac; ts = now }) r.slots;
  head = r.head + 1;
  count = if ltb r.count dedup_window then r.count + 1 else r.count;
}
