-- ===== src/EspLock/Token.antt =====
-- `lock_state_validate_signed_command` and `lock_state_validate_command_signature`.
use forge_key.Prelude.{
  ℕ, suc, ◌+◌, ◌-◌, Bool, true, false, not, ◌&&◌, ◌==◌, Option, none, some, [], ◌∷◌, ltb,
  if◌then◌else◌, ℤ, pos, is_positive, length, take, drop, map, Text, codes, is_empty, text_eq,
  index_of,
}
use forge_key.Json.{Document}
use forge_key.Command.Auth.{
  Libraries, Device, normalize_mac, pad, url_byte, field, verify_es256_raw_signature,
}
use forge_key.Lock.Unlock.{long_or, drifts, past}

-- strchr twice: the payload, the signature, and the signed part of a token.
unfoldable pub split_token : Text → Option (Text × Text × Text)
split_token token = elim (index_of b'.' token) [
  | none ↦ none
  | some first ↦ elim (index_of b'.' (drop (suc first) token)) [
    | none ↦ none
    | some gap ↦
        if gap == 0
        then none
        else some (
          take gap (drop (suc first) token),
          drop (suc (suc first + gap)) token,
          take (suc first + gap) token,
        )
  ]
]

-- normalize_mac_claim, into a buffer of so many bytes.
abbrev normalize_mac_claim : Text → ℕ → Text
normalize_mac_claim mac size = take (size - 1) (normalize_mac mac)

-- A decoded payload as a C string.
unfoldable pub c_string : Text → Text
c_string [] = []
c_string (c ∷ cs) = let rest = c_string cs in if c == 0 then [] else c ∷ rest

-- The checks on the claims of a token; `mac` is g_mac_address.
unfoldable pub claims_hold : ℕ → Text → Document → ℤ → Text → Bool
claims_hold now mac claims timestamp expected_cmd =
    let claim_timestamp = long_or (claims (codes "timestamp")) timestamp in
    let expiry = long_or (claims (codes "exp")) (pos 0) in
    let claim_mac = field (codes "mac") claims in
    let cmd = field (codes "cmd") claims in
    if is_positive claim_timestamp && ltb 0 now && drifts now claim_timestamp
    then false
    else if is_positive expiry && ltb 0 now && past now expiry
    then false
    else if not (is_empty claim_mac)
        && not (text_eq (normalize_mac_claim mac 13) (normalize_mac_claim claim_mac 32))
    then false
    else if not (is_empty expected_cmd) && not (is_empty cmd) && not (text_eq cmd expected_cmd)
    then false
    else true

-- `deserialize` is cJSON_Parse here. Of the device, its clock, address and keys are read.
module _ (lib : Libraries) where
  -- The padded text has to fit 512 bytes with its end.
  unfoldable pub base64url_decode : Text → ℕ → Option Text
  unfolding pad
  base64url_decode input capacity =
      let normalized = pad 3 (map url_byte input) in
      if ltb 511 (length normalized) then none else lib.base64_decode normalized capacity

  unfoldable pub validate_signed_command : Device → Text → ℤ → Text → Bool
  validate_signed_command d token timestamp expected_cmd = elim (split_token token) [
    | none ↦ false
    | some (payload, signature, input) ↦ elim (base64url_decode payload 511) [
      | none ↦ false
      | some bytes ↦ elim (lib.deserialize (c_string bytes)) [
        | none ↦ false
        | some claims ↦
            if not (claims_hold d.epoch_now d.mac claims timestamp expected_cmd)
            then false
            else elim (base64url_decode signature 80) [
              | none ↦ false
              | some raw ↦ verify_es256_raw_signature lib d input raw
            ]
      ]
    ]
  ]

  unfoldable pub validate_command_signature : Device → Text → Text → Bool
  validate_command_signature d input signature =
      if is_empty signature then false else elim (base64url_decode signature 80) [
        | none ↦ false
        | some raw ↦ verify_es256_raw_signature lib d input raw
      ]
