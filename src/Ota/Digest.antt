-- ===== src/Ota/Digest.antt =====
-- `toHex` and `hexEq`: the check of a SHA-256 digest against the dispatch's text.
use forge_key.Prelude.{
  ℕ, ◌+◌, ◌-◌, ◌/◌, ◌%◌, ◌<◌, Bool, true, false, ◌&&◌, [], ◌∷◌, ltb, ◌==◌, if◌then◌else◌, Text,
  to_lower, ◌≡◌, refl, ap₂, arith, All,
}

-- kHexDigits[n]
abbrev pub hex_digit : ℕ → ℕ
hex_digit n = if ltb n 10 then b'0' + n else b'a' + (n - 10)

unfoldable pub to_hex : Text → Text
to_hex [] = []
to_hex (b ∷ bs) = hex_digit (b / 16 % 16) ∷ hex_digit (b % 16) ∷ to_hex bs

-- The letters are compared in lower case.
unfoldable pub hex_eq : Text → Text → Bool
hex_eq [] [] = true
hex_eq (a ∷ as') (b ∷ bs) = to_lower a == to_lower b && hex_eq as' bs
hex_eq _ _ = false

abbrev pub AreBytes : Text → Type 0
AreBytes t = All (λ b. b < 256) t

digit_of :
    (n m c : ℕ)
    → n < 16
    → m < 16
    → (to_lower (hex_digit n) == c) ≡ true
    → (to_lower (hex_digit m) == c) ≡ true
    → n ≡ m
digit_of n m c p q h k = ground arith

two_true : (a b c : Bool) → (a && (b && c)) ≡ true → (a ≡ true) × (b ≡ true) × (c ≡ true)
two_true a b c h = ground arith

-- A checksum text determines the digest: two digests of bytes whose hexadecimal texts both match the
-- same text, in whatever case, are equal.
pub hex_eq-to_hex :
    (d e text : Text)
    → AreBytes d
    → AreBytes e
    → hex_eq (to_hex d) text ≡ true
    → hex_eq (to_hex e) text ≡ true
    → d ≡ e
unfolding to_hex hex_eq
hex_eq-to_hex [] [] text p q h k = refl
hex_eq-to_hex [] (y ∷ ys) [] p q h k = cc
hex_eq-to_hex [] (y ∷ ys) (a ∷ as') p q h k = cc
hex_eq-to_hex (x ∷ xs) [] [] p q h k = cc
hex_eq-to_hex (x ∷ xs) [] (a ∷ as') p q h k = cc
hex_eq-to_hex (x ∷ xs) (y ∷ ys) [] p q h k = cc
hex_eq-to_hex (x ∷ xs) (y ∷ ys) (a ∷ []) p q h k = ground arith
hex_eq-to_hex (x ∷ xs) (y ∷ ys) (a ∷ (b ∷ rest)) p q h k =
    let (h1, h2, h3) =
      two_true (to_lower (hex_digit (x / 16 % 16)) == to_lower a)
        (to_lower (hex_digit (x % 16)) == to_lower b) (hex_eq (to_hex xs) rest) h in
    let (k1, k2, k3) =
      two_true (to_lower (hex_digit (y / 16 % 16)) == to_lower a)
        (to_lower (hex_digit (y % 16)) == to_lower b) (hex_eq (to_hex ys) rest) k in
    let high =
      digit_of (x / 16 % 16) (y / 16 % 16) (to_lower a) (omega arith) (omega arith) h1 k1 in
    let low = digit_of (x % 16) (y % 16) (to_lower b) (omega arith) (omega arith) h2 k2 in
    let same : x ≡ y = omega (arith, high, low, p.0, q.0) in
    ap₂ ◌∷◌ same (hex_eq-to_hex xs ys rest p.1 q.1 h3 k3)
