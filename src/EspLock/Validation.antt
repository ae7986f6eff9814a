-- ===== src/EspLock/Validation.antt =====
-- `command_validation_validate` of the lock firmware (src/esp32c6-lock/main/command_validation.c).
-- Its envelope, time and replay checks are those of the other firmware; the authenticators differ.
use forge_key.Prelude.{
  ℕ, not, Option, none, some, ltb, if◌then◌else◌, pos, length, Text, codes, is_empty, modify, ◌+◌,
  ◌%◌,
}
use forge_key.Json.{Document}
use forge_key.Command.Replay.{Cache, replay_seen, clip, replay_cache_size}
use forge_key.Command.Auth.{
  Libraries, Device, Error, missing_envelope_field, missing_authenticator, envelope_field_too_long,
  invalid_timestamp, replay_detected, invalid_signature, field, parse_epoch,
  canonical_signing_input,
}
use forge_key.Command.Validate.{
  lacks_field, lacks_authenticator, too_long, uses_server_challenge_flow, time_error,
}
use forge_key.EspLock.Token.{validate_signed_command, validate_command_signature}

-- The error texts: those of the other firmware, and "invalid_token".
pub data Rejection : Type 0 where
  common : Error → Rejection
  invalid_token : Rejection

module _ (lib : Libraries) where
  -- The signing input has to fit 384 bytes with its end. Of a token only the verb is compared.
  unfoldable pub authenticator_error : Device → Document → Option Rejection
  authenticator_error d doc =
      let input = canonical_signing_input doc in
      if is_empty (field (codes "jwt") doc)
      then (if ltb 383 (length input)
          then some (common invalid_signature)
          else if not (validate_command_signature lib d input (field (codes "signature") doc))
          then some (common invalid_signature)
          else none)
      else if not (
          validate_signed_command lib d (field (codes "jwt") doc) (pos 0) (field (codes "cmd") doc))
      then some invalid_token
      else none

  -- The checks once both times are read.
  unfoldable pub late_error : Device → Cache → Document → ℕ → ℕ → Option Rejection
  late_error d cache doc issued expires =
      elim (time_error d (uses_server_challenge_flow doc) issued expires) [
        | some e ↦ some (common e)
        | none ↦
            if replay_seen (field (codes "command_id") doc) (field (codes "nonce") doc) cache
            then some (common replay_detected)
            else authenticator_error d doc
      ]

  unfoldable pub times_error : Device → Cache → Document → Option Rejection
  times_error d cache doc = elim (parse_epoch lib (doc (codes "issued_at"))) [
    | none ↦ some (common invalid_timestamp)
    | some issued ↦ elim (parse_epoch lib (doc (codes "expires_at"))) [
      | none ↦ some (common invalid_timestamp)
      | some expires ↦ late_error d cache doc issued expires
    ]
  ]

  unfoldable pub command_error : Device → Cache → Document → Option Rejection
  command_error d cache doc =
      if lacks_field doc
      then some (common missing_envelope_field)
      else if lacks_authenticator doc
      then some (common missing_authenticator)
      else if too_long doc
      then some (common envelope_field_too_long)
      else times_error d cache doc

-- The cache part of command_validation_remember_accepted.
unfoldable pub remember_accepted : Text → Text → Cache → Cache
remember_accepted command_id nonce c =
    if is_empty command_id then c else if is_empty nonce then c else record c {
      slots =
          modify c.next (λ e. record { command_id = clip command_id; nonce = clip nonce }) c.slots;
      count = if ltb c.count replay_cache_size then c.count + 1 else c.count;
      next = (c.next + 1) % replay_cache_size;
    }
