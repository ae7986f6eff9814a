-- ===== src/Lock/Unlock.antt =====
-- `validateJwt` and `handleUnlockCommand`. Base64, the split of a token and the check of its
-- signature are the code of the command validation, which lock_device.cpp repeats.
use forge_key.Prelude.{
  ℕ, ◌+◌, ◌-◌, Bool, true, false, not, ◌&&◌, ◌||◌, none, some, ltb, if◌then◌else◌, ℤ, pos, negsuc,
  is_positive, Text, codes, is_empty, text_eq,
}
use forge_key.Json.{Value, num, negative, Document}
use forge_key.Command.Auth.{
  Libraries, Device, normalize_mac, split_jwt, field, decode_base64_url, verify_es256_raw_signature,
}
use forge_key.Lock.State.{Lock, unlocked, signed_command}

-- value | fallback, for a long
abbrev pub long_or : Value → ℤ → ℤ
long_or (num n) fallback = pos n
long_or (negative n) fallback = negsuc n
long_or _ fallback = fallback

-- labs(now - t) > FORGEKEY_LOCK_CMD_TIMESTAMP_TOLERANCE_S, for a positive t
abbrev pub drifts : ℕ → ℤ → Bool
drifts now (pos t) = ltb 60 ((now - t) + (t - now))
drifts now (negsuc t) = true

-- now > expiry
abbrev pub past : ℕ → ℤ → Bool
past now (pos t) = ltb t now
past now (negsuc t) = true

-- The checks on the claims of a token.
unfoldable pub claims_hold : Device → Document → ℤ → Text → Bool
claims_hold d claims timestamp expected_cmd =
    let claim_timestamp = long_or (claims (codes "timestamp")) timestamp in
    let expiry = long_or (claims (codes "exp")) (pos 0) in
    let mac = field (codes "mac") claims in
    let cmd = field (codes "cmd") claims in
    if (is_positive claim_timestamp || is_positive expiry) && not d.clock_valid
    then false
    else if is_positive claim_timestamp && drifts d.epoch_now claim_timestamp
    then false
    else if is_positive expiry && past d.epoch_now expiry
    then false
    else if not (is_empty mac) && not (text_eq (normalize_mac d.mac) (normalize_mac mac))
    then false
    else if not (is_empty expected_cmd) && not (is_empty cmd) && not (text_eq cmd expected_cmd)
    then false
    else true

module _ (lib : Libraries) where
  -- `d.mac` is g_macAddress; an absent token is the empty text.
  unfoldable pub validate_jwt : Device → Text → ℤ → Text → Bool
  validate_jwt d token timestamp expected_cmd = elim (split_jwt token) [
    | none ↦ false
    | some (payload, signature, input) ↦ elim (decode_base64_url lib payload 511) [
      | none ↦ false
      | some bytes ↦ elim (lib.deserialize bytes) [
        | none ↦ false
        | some claims ↦
            if not (claims_hold d claims timestamp expected_cmd)
            then false
            else elim (decode_base64_url lib signature 80) [
              | none ↦ false
              | some raw ↦ verify_es256_raw_signature lib d input raw
            ]
      ]
    ]
  ]

  -- `now` and `later` are its two readings of the clock.
  unfoldable pub handle_unlock_command : Device → Text → ℤ → ℕ → ℕ → Lock → Lock × Bool
  handle_unlock_command d token timestamp now later l =
      if is_empty token
      then (l, false)
      else if not (validate_jwt (record d { mac = l.mac_address }) token timestamp (codes "unlock"))
      then (l, false)
      else (
        record l {
          solenoid_pulse_start = now;
          solenoid_pulsing = true;
          solenoid_on = true;
          state = unlocked;
          last_trigger = signed_command;
          unlock_time = later;
        },
        true,
      )
