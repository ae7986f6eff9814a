-- ===== src/Ble/Lists.antt =====
-- `normalizeMac`, `listContains`, `parseList` and `macAllowed`.
use forge_key.Prelude.{
  ℕ, zero, suc, ◌+◌, ◌≡◌, refl, sym, ap, subst, ◌↔◌, Bool, true, false, not, ◌&&◌, ◌||◌, some, List,
  [], ◌∷◌, arith, ltb, leb, ◌==◌, if◌then◌else◌, length, get_elem?, Text, text_eq, text_eq-eq,
  text_eq_self, ◌⊎◌, inl, inr, Bool-cases,
}
use forge_key.Json.{Value, text_or_empty}

abbrev pub mac_len : ℕ
mac_len = 12

abbrev pub list_max : ℕ
list_max = 16

abbrev pub lower_hex : ℕ → ℕ
lower_hex c = if leb b'A' c && leb c b'F' then c + 32 else c

abbrev pub is_hex : ℕ → Bool
is_hex c = (leb b'0' c && leb c b'9') || (leb b'a' c && leb c b'f')

-- `normalizeMac`, with room for so many digits.
unfoldable pub mac_digits : ℕ → Text → Text
mac_digits room [] = []
mac_digits room (c ∷ cs) =
    let skip = mac_digits room cs in
    let digit : Text = elim room [ zero ↦ [] | suc n ↦ lower_hex c ∷ mac_digits n cs ] in
    if room == 0
    then []
    else if c == b':' || c == b'-' || c == b' '
    then skip
    else if is_hex (lower_hex c)
    then digit
    else skip

unfoldable pub list_contains : List Text → Text → Bool
list_contains [] mac = false
list_contains (m ∷ ms) mac = text_eq m mac || list_contains ms mac

-- The loop of `parseList`, with room for so many addresses; what is no array has no items.
unfoldable pub parse_list : ℕ → List Value → List Text
unfolding mac_digits
parse_list room [] = []
parse_list zero (v ∷ vs) = []
parse_list (suc n) (v ∷ vs) =
    let mac = mac_digits mac_len (text_or_empty v) in
    let skip = parse_list (suc n) vs in
    let add = mac ∷ parse_list n vs in if length mac == mac_len then add else skip

unfoldable pub mac_allowed : List Text → List Text → Text → Bool
unfolding mac_digits list_contains
mac_allowed allowlist denylist bare_mac =
    let mac = mac_digits mac_len bare_mac in
    if not (length mac == mac_len)
    then false
    else if list_contains denylist mac
    then false
    else if ltb 0 (length allowlist) && not (list_contains allowlist mac)
    then false
    else true

-- An address stands in a list.
abbrev pub IsListed : Text → List Text → Type 0
IsListed mac ms = (i : ℕ) × (get_elem? ms i ≡ some mac)

list_contains_iff : (ms : List Text) (mac : Text) → (list_contains ms mac ≡ true) ↔ IsListed mac ms
unfolding list_contains
list_contains_iff ms mac = (listed ms, λ (i, e). contains ms i e)
  where
    listed : (ms : List Text) → list_contains ms mac ≡ true → IsListed mac ms
    listed [] h = cc
    listed (m ∷ ms) h = elim (Bool-cases (text_eq m mac)) [
      | inl e ↦ (0, ap some (text_eq-eq m mac e))
      | inr e ↦ let (i, f) = listed ms (simp e at h) in (suc i, f)
    ]

    contains : (ms : List Text) (i : ℕ) → get_elem? ms i ≡ some mac → list_contains ms mac ≡ true
    contains [] i e = cc
    contains (m ∷ ms) zero e =
        let same : m ≡ mac = cc in
        simp (subst (λ t. text_eq t mac ≡ true) (sym same) (text_eq_self mac)) refl
    contains (m ∷ ms) (suc i) e = ground (arith, contains ms i e)

not_listed : (ms : List Text) (mac : Text) → list_contains ms mac ≡ false → IsListed mac ms → ⊥
not_listed ms mac h l = let contains = (list_contains_iff ms mac).1 l in cc

unlisted : (ms : List Text) (mac : Text) → (IsListed mac ms → ⊥) → list_contains ms mac ≡ false
unlisted ms mac h = elim (Bool-cases (list_contains ms mac)) [
  | inl e ↦ absurd (h ((list_contains_iff ms mac).0 e))
  | inr e ↦ e
]

-- The test of the allowlist.
passes_allowlist :
    (ms : List Text) (mac : Text)
    → ((ltb 0 (length ms) && not (list_contains ms mac)) ≡ false) ↔ ((ms ≡ []) ⊎ IsListed mac ms)
passes_allowlist [] mac = (λ h. inl refl, λ h. refl)
passes_allowlist (m ∷ ms) mac = (
  λ h. inr ((list_contains_iff (m ∷ ms) mac).0 (ground arith)),
  λ h. elim h [ inl e ↦ cc | inr l ↦ simp ((list_contains_iff (m ∷ ms) mac).1 l) (ground arith) ],
)

-- An address is allowed exactly if it has twelve hexadecimal digits, the denylist does not have
-- them, and the allowlist has them or is empty.
pub mac_allowed_iff :
    (allowlist denylist : List Text) (bare_mac : Text)
    → let mac = mac_digits mac_len bare_mac in
      (mac_allowed allowlist denylist bare_mac ≡ true) ↔ (
        (length mac ≡ 12)
        × (IsListed mac denylist → ⊥)
        × ((allowlist ≡ []) ⊎ IsListed mac allowlist))
unfolding mac_allowed
mac_allowed_iff allowlist denylist bare_mac =
    let mac = mac_digits mac_len bare_mac in
    (
      λ h. elim (Bool-cases (length mac == 12)) [
        | inr e ↦ cc (simp e at h)
        | inl long ↦ elim (Bool-cases (list_contains denylist mac)) [
          | inl e ↦ cc (simp (long, e) at h)
          | inr free ↦
              elim (Bool-cases (ltb 0 (length allowlist) && not (list_contains allowlist mac))) [
                | inl e ↦ cc (simp (long, free, e) at h)
                | inr e ↦ (
                  ground arith,
                  not_listed denylist mac free,
                  (passes_allowlist allowlist mac).0 e,
                )
              ]
        ]
      ],
      λ (long, free, passes).
          let test : (length mac == 12) ≡ true = ground arith in
          simp (test, unlisted denylist mac free, (passes_allowlist allowlist mac).1 passes) refl,
    )
