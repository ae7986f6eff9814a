-- ===== src/Ble/Limits.antt =====
-- The limits that an applied desired state keeps, and what a refused one leaves behind.
use forge_key.Prelude.{
  ℕ, zero, suc, ◌*◌, ◌≤◌, ◌≡◌, ◌≢◌, refl, Bool, true, false, not, ◌&&◌, List, [], ◌∷◌, arith, ◌==◌,
  length, All, Text, codes, text_eq, text_eq-eq, text_eq_self, subst, ◌⊎◌, inl, inr, Bool-cases,
  if_both, ◌||◌, if_cases,
}
use forge_key.Json.{Conversions, Value, text_or_empty}
use forge_key.Ble.Lists.{parse_list, list_max, mac_digits, mac_len, is_hex, lower_hex}
use forge_key.Ble.Config.{
  BleConfig, Desired, take_over, requested_mode, namespace, clamp, finish, apply,
}

-- What the scanner may rely on.
pub record IsClamped (c : BleConfig) : Type 0 where
  pub slow : 10000 ≤ c.scan_interval_ms
  pub some_duration : 1 ≤ c.scan_duration_s
  pub short_duration : c.scan_duration_s ≤ 30
  pub within_interval : c.scan_duration_s * 1000 ≤ c.scan_interval_ms

clamp-IsClamped : (c : BleConfig) → IsClamped (clamp c)
unfolding clamp
clamp-IsClamped c = ground arith

-- A decimal digit or one of the letters a to f.
abbrev pub IsHexDigit : ℕ → Type 0
IsHexDigit c = ((48 ≤ c) × (c ≤ 57)) ⊎ ((97 ≤ c) × (c ≤ 102))

abbrev pub IsMac : Text → Type 0
IsMac m = (length m ≡ 12) × All IsHexDigit m

-- At most sixteen addresses, each of twelve lower-case hexadecimal digits.
pub record IsMacList (ms : List Text) : Type 0 where
  pub few : length ms ≤ 16
  pub whole : All IsMac ms

is_hex-IsHexDigit : (c : ℕ) → is_hex c ≡ true → IsHexDigit c
is_hex-IsHexDigit c h = ground arith

mac_digits-IsHexDigit : (room : ℕ) (t : Text) → All IsHexDigit (mac_digits room t)
unfolding mac_digits
mac_digits-IsHexDigit room [] = tt
mac_digits-IsHexDigit zero (c ∷ cs) = tt
mac_digits-IsHexDigit (suc n) (c ∷ cs) =
    let P : Text → Type 0 = λ t. All IsHexDigit t in
    let skip = mac_digits-IsHexDigit (suc n) cs in
    if_both P (suc n == 0) tt (
      if_both P (c == b':' || c == b'-' || c == b' ') skip (
        if_cases P (is_hex (lower_hex c))
          (λ e. (is_hex-IsHexDigit (lower_hex c) e, mac_digits-IsHexDigit n cs)) (λ e. skip)))

parse_list-IsMacList :
    (room : ℕ) (vs : List Value)
    → (length (parse_list room vs) ≤ room) × All IsMac (parse_list room vs)
unfolding parse_list
parse_list-IsMacList zero [] = (omega arith, tt)
parse_list-IsMacList (suc n) [] = (omega arith, tt)
parse_list-IsMacList zero (v ∷ vs) = (omega arith, tt)
parse_list-IsMacList (suc n) (v ∷ vs) =
    elim (Bool-cases (length (mac_digits mac_len (text_or_empty v)) == 12)) [
      | inl e ↦ simp e (
        omega (arith, (parse_list-IsMacList n vs).0),
        (
          (ground arith, mac_digits-IsHexDigit mac_len (text_or_empty v)),
          (parse_list-IsMacList n vs).1,
        ),
      )
      | inr e ↦ simp e (parse_list-IsMacList (suc n) vs)
    ]

-- The modes that are known.
abbrev pub IsMode : Text → Type 0
IsMode t = (t ≡ codes "hashed") ⊎ (t ≡ codes "ephemeral")

one_true : (a b : Bool) → (not a && not b) ≡ false → (a ≡ true) ⊎ (b ≡ true)
one_true true b h = inl refl
one_true false true h = inr refl
one_true false false h = cc

known-IsMode :
    (t : Text)
    → (not (text_eq t (codes "hashed")) && not (text_eq t (codes "ephemeral"))) ≡ false
    → IsMode t
known-IsMode t h = elim (one_true (text_eq t (codes "hashed")) (text_eq t (codes "ephemeral")) h) [
  | inl e ↦ inl (text_eq-eq t (codes "hashed") e)
  | inr e ↦ inr (text_eq-eq t (codes "ephemeral") e)
]

not_first : (a b : Bool) → (not a && b) ≡ true → a ≡ false
not_first true b h = cc
not_first false b h = refl

unknown-ne :
    (t : Text) (b : Bool) → (not (text_eq t (codes "hashed")) && b) ≡ true → t ≢ codes "hashed"
unknown-ne t b h same =
    let equal : text_eq t (codes "hashed") ≡ true =
      subst (λ s. text_eq t s ≡ true) same (text_eq_self t) in
    let differ = not_first (text_eq t (codes "hashed")) b h in cc

-- What `apply` guarantees of the configuration that it accepts.
pub record IsSound (c : BleConfig) : Type 0 where
  pub clamped : IsClamped c
  pub mode : IsMode c.identity_mode
  pub allow : IsMacList c.allowlist
  pub deny : IsMacList c.denylist

clamp-IsSound :
    (c : BleConfig)
    → IsMode c.identity_mode
    → IsMacList c.allowlist
    → IsMacList c.denylist
    → IsSound (clamp c)
clamp-IsSound c m a d = record {
  clamped = clamp-IsClamped c;
  mode = unfold clamp in m;
  allow = unfold clamp in a;
  deny = unfold clamp in d;
}

listed : (vs : List Value) → IsMacList (parse_list list_max vs)
listed vs = record { few = (parse_list-IsMacList 16 vs).0; whole = (parse_list-IsMacList 16 vs).1 }

module _ (json : Conversions) (ble : Desired) where
  finish-cases :
      (c : BleConfig) (mode current : Text)
      → (((finish json ble c mode current).1 ≡ true) × IsSound (finish json ble c mode current).0)
        ⊎ (((finish json ble c mode current).1 ≡ false)
            × ((finish json ble c mode current).0 ≡ c)
            × (mode ≢ codes "hashed"))
  unfolding finish
  finish-cases c mode current =
      elim (Bool-cases
        (not (text_eq mode (codes "hashed")) && not (text_eq mode (codes "ephemeral")))) [
          | inl e ↦ rw (e, finish) (inr (refl, refl, unknown-ne mode _ e))
          | inr e ↦
              rw (e, finish)
                (inl (
                  refl,
                  clamp-IsSound
                      (record c {
                        identity_mode = mode;
                        site_namespace = namespace json ble current;
                        allowlist = parse_list list_max (ble.items (codes "allowlist"));
                        denylist = parse_list list_max (ble.items (codes "denylist"));
                      })
                      (known-IsMode mode e) (listed (ble.items (codes "allowlist")))
                      (listed (ble.items (codes "denylist"))),
                ))
        ]

  -- A desired state that is applied leaves a configuration within its limits: the scan interval is
  -- ten seconds or more and no shorter than the scan, a scan takes one to thirty seconds, the
  -- identity mode is known, and both lists have at most sixteen addresses of twelve lower-case
  -- hexadecimal digits.
  pub apply-IsSound : (c : BleConfig) → (apply json ble c).1 ≡ true → IsSound (apply json ble c).0
  unfolding apply
  apply-IsSound c h =
      let taken = take_over json ble c in
      let asked = requested_mode json ble c.identity_mode in
      elim (Bool-cases (text_eq asked (codes "raw"))) [
        | inl e ↦
            elim (finish-cases (record taken { raw_mac_enabled = true }) (codes "hashed")
              c.site_namespace) [
                | inl (applied, sound) ↦ rw (e, apply) sound
                | inr (refused, same, unknown) ↦ absurd (unknown refl)
              ]
        | inr e ↦ elim (finish-cases taken asked c.site_namespace) [
          | inl (applied, sound) ↦ rw (e, apply) sound
          | inr (refused, same, unknown) ↦ let h' = rw (e, apply) at h in cc
        ]
      ]

  -- A desired state that is refused has changed the configuration all the same: the flags, the scan
  -- times and the signal threshold are taken over, and the times are not clamped.
  pub apply-refused :
      (c : BleConfig) → (apply json ble c).1 ≡ false → (apply json ble c).0 ≡ take_over json ble c
  unfolding apply
  apply-refused c h =
      let taken = take_over json ble c in
      let asked = requested_mode json ble c.identity_mode in
      elim (Bool-cases (text_eq asked (codes "raw"))) [
        | inl e ↦
            elim (finish-cases (record taken { raw_mac_enabled = true }) (codes "hashed")
              c.site_namespace) [
                | inl (applied, sound) ↦ let h' = rw (e, apply) at h in cc
                | inr (refused, same, unknown) ↦ absurd (unknown refl)
              ]
        | inr e ↦ elim (finish-cases taken asked c.site_namespace) [
          | inl (applied, sound) ↦ let h' = rw (e, apply) at h in cc
          | inr (refused, same, unknown) ↦ rw (e, apply) same
        ]
      ]
