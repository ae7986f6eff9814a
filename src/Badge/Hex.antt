-- ===== src/Badge/Hex.antt =====
-- The text of a card's UID.
use forge_key.Prelude.{
  ℕ, suc, ◌-◌, ◌*◌, ◌/◌, ◌%◌, ◌≤◌, ◌<◌, ◌≡◌, ◌≢◌, refl, ap, ap₂, sym, ◌∙◌, Bool, true, false, ◌&&◌,
  inl, inr, [], ◌∷◌, All, arith, ltb, ◌==◌, length, take, min, Text, text_eq, Bool-cases,
  length-take, All-take,
}
use forge_key.Badge.Reader.{CardUid, same_uid, hex_char, format_from, format_uid_hex}

-- A UID as a reader returns it.
pub record IsCard (u : CardUid) : Type 0 where
  pub whole : length u.bytes ≡ 10
  pub short : u.length ≤ 10
  pub bytes_small : All (λ b. b < 256) u.bytes

-- The two digits of each byte.
unfoldable pairs : Text → Text
pairs [] = []
pairs (b ∷ bs) = hex_char (b / 16 % 16) ∷ hex_char (b % 16) ∷ pairs bs

format_from-pairs : (room : ℕ) (bs : Text) → length bs * 2 < room → format_from room bs ≡ pairs bs
unfolding format_from pairs
format_from-pairs room [] h = refl
format_from-pairs room (b ∷ bs) h =
    let rest = format_from-pairs (room - 2) bs (omega (arith, h)) in
    let fits : ltb 2 room ≡ true = ground (arith, h) in rw (rest, fits) refl

hex_char-eq : (c d : ℕ) → c < 16 → d < 16 → (hex_char c == hex_char d) ≡ (c == d)
hex_char-eq c d hc hd = ground arith

byte_eq :
    (a b : ℕ) → a < 256 → b < 256 → ((a / 16 % 16 == b / 16 % 16) && (a % 16 == b % 16)) ≡ (a == b)
byte_eq a b ha hb = ground arith

and_assoc : (a b c : Bool) → (a && (b && c)) ≡ ((a && b) && c)
and_assoc true b c = refl
and_assoc false b c = refl

pairs-text_eq :
    (as' bs : Text)
    → All (λ b. b < 256) as'
    → All (λ b. b < 256) bs
    → text_eq (pairs as') (pairs bs) ≡ text_eq as' bs
unfolding pairs text_eq
pairs-text_eq [] [] ha hb = refl
pairs-text_eq [] (b ∷ bs) ha hb = refl
pairs-text_eq (a ∷ as') [] ha hb = refl
pairs-text_eq (a ∷ as') (b ∷ bs) (a_small, ha) (b_small, hb) =
    ap₂ ◌&&◌ (hex_char-eq (a / 16 % 16) (b / 16 % 16) (omega arith) (omega arith)) (
      ap₂ ◌&&◌ (hex_char-eq (a % 16) (b % 16) (omega arith) (omega arith))
        (pairs-text_eq as' bs ha hb))
    ∙ and_assoc (a / 16 % 16 == b / 16 % 16) (a % 16 == b % 16) (text_eq as' bs)
    ∙ ap (λ t. t && text_eq as' bs) (byte_eq a b a_small b_small)

text_eq-length : (a b : Text) → length a ≢ length b → text_eq a b ≡ false
unfolding text_eq
text_eq-length [] [] h = absurd (h refl)
text_eq-length [] (b ∷ bs) h = refl
text_eq-length (a ∷ as') [] h = refl
text_eq-length (a ∷ as') (b ∷ bs) h = ground (arith, text_eq-length as' bs (λ p. h (ap suc p)))

format_uid_hex-pairs : (u : CardUid) → IsCard u → format_uid_hex u ≡ pairs (take u.length u.bytes)
unfolding format_uid_hex
format_uid_hex-pairs u card =
    let all : min u.length 10 ≡ u.length = omega (arith, card.short) in
    let fits = length-take u.length u.bytes (omega (arith, card.short, card.whole)) in
    rw all (format_from-pairs 21 (take u.length u.bytes) (omega (arith, fits, card.short)))

-- Two cards have the same text exactly if they are the same to `sameUid`.
pub format_uid_hex-same_uid :
    (a b : CardUid)
    → IsCard a
    → IsCard b
    → text_eq (format_uid_hex a) (format_uid_hex b) ≡ same_uid a b
unfolding same_uid
format_uid_hex-same_uid a b card_a card_b =
    let digits =
      ap₂ text_eq (format_uid_hex-pairs a card_a) (format_uid_hex-pairs b card_b)
      ∙ pairs-text_eq (take a.length a.bytes) (take b.length b.bytes)
          (All-take (λ c. c < 256) a.length a.bytes card_a.bytes_small)
          (All-take (λ c. c < 256) b.length b.bytes card_b.bytes_small) in
    let fits_a = length-take a.length a.bytes (omega (arith, card_a.short, card_a.whole)) in
    let fits_b = length-take b.length b.bytes (omega (arith, card_b.short, card_b.whole)) in
    elim (Bool-cases (a.length == b.length)) [
      | inl same ↦
          let equal : a.length ≡ b.length = ground (arith, same) in digits ∙ rw same (rw equal refl)
      | inr other ↦
          let apart =
            text_eq-length (take a.length a.bytes) (take b.length b.bytes)
              (λ p. absurd (ground (arith, other, sym fits_a ∙ p ∙ fits_b))) in
          digits ∙ apart ∙ rw other refl
    ]
