-- ===== src/Command/Validate.antt =====
-- `validate` and `rememberAccepted`.
use forge_key.Prelude.{
  ℕ, ◌+◌, Bool, not, ◌&&◌, ◌||◌, Option, none, some, ltb, leb, if◌then◌else◌, length, take, Text,
  codes, is_empty, text_eq,
}
use forge_key.Json.{Document}
use forge_key.Command.Replay.{
  Cache, replay_value_max, replay_seen, remember, load_replay_cache, encode,
}
use forge_key.Command.Auth.{
  Libraries, Device, Error, missing_envelope_field, missing_authenticator, envelope_field_too_long,
  invalid_timestamp, expired, clock_invalid, issued_in_future, replay_detected, invalid_command,
  field, parse_epoch, jwt_error, detached_error,
}

-- kIssuedAtFutureSkewS
abbrev pub issued_at_future_skew_s : ℕ
issued_at_future_skew_s = 300

-- struct Result; `ok` is an error of `none`.
pub record Result : Type 0 where
  pub error : Option Error
  pub command_id : Text
  pub nonce : Text
  pub actor : Text

abbrev pub uses_server_challenge_flow : Document → Bool
uses_server_challenge_flow doc =
    text_eq (field (codes "auth_flow") doc) (codes "challenge")
    || text_eq (field (codes "auth_flow") doc) (codes "nonce")
    || not (is_empty (field (codes "challenge") doc))
    || not (is_empty (field (codes "server_nonce") doc))

abbrev pub lacks_field : Document → Bool
lacks_field doc =
    is_empty (field (codes "cmd") doc)
    || is_empty (field (codes "command_id") doc)
    || is_empty (field (codes "issued_at") doc)
    || is_empty (field (codes "expires_at") doc)
    || is_empty (field (codes "nonce") doc)
    || is_empty (field (codes "actor") doc)

abbrev pub lacks_authenticator : Document → Bool
lacks_authenticator doc =
    is_empty (field (codes "jwt") doc) && is_empty (field (codes "signature") doc)

abbrev pub too_long : Document → Bool
too_long doc =
    leb replay_value_max (length (field (codes "command_id") doc))
    || leb replay_value_max (length (field (codes "nonce") doc))

-- The checks of the two times against each other and the clock.
unfoldable pub time_error : Device → Bool → ℕ → ℕ → Option Error
time_error d challenge_flow issued_at expires_at =
    if leb expires_at issued_at
    then some expired
    else if not d.clock_valid && not challenge_flow
    then some clock_invalid
    else if d.clock_valid && ltb expires_at d.epoch_now
    then some expired
    else if d.clock_valid && ltb (d.epoch_now + issued_at_future_skew_s) issued_at
    then some issued_in_future
    else none

module _ (lib : Libraries) where
  unfoldable pub authenticator_error : Device → Document → Option Error
  authenticator_error d doc =
      if not (is_empty (field (codes "jwt") doc))
      then jwt_error lib d doc (field (codes "jwt") doc) (uses_server_challenge_flow doc)
      else detached_error lib d doc (field (codes "signature") doc)

  -- The checks once both times are read.
  unfoldable pub late_error : Device → Cache → Document → ℕ → ℕ → Option Error
  unfolding time_error
  late_error d cache doc issued_at expires_at =
      elim (time_error d (uses_server_challenge_flow doc) issued_at expires_at) [
        | some e ↦ some e
        | none ↦
            if replay_seen (field (codes "command_id") doc) (field (codes "nonce") doc) cache
            then some replay_detected
            else authenticator_error d doc
      ]

  unfoldable pub times_error : Device → Cache → Document → Option Error
  times_error d cache doc = elim (parse_epoch lib (doc (codes "issued_at"))) [
    | none ↦ some invalid_timestamp
    | some issued_at ↦ elim (parse_epoch lib (doc (codes "expires_at"))) [
      | none ↦ some invalid_timestamp
      | some expires_at ↦ late_error d cache doc issued_at expires_at
    ]
  ]

  unfoldable pub command_error : Device → Cache → Document → Option Error
  command_error d cache doc =
      if lacks_field doc
      then some missing_envelope_field
      else if lacks_authenticator doc
      then some missing_authenticator
      else if too_long doc
      then some envelope_field_too_long
      else times_error d cache doc

  -- `stored` is the text that the flash holds; the first call loads it.
  unfoldable pub validate : Device → Option Text → Cache → Document → Cache × Result
  validate d stored cache doc =
      let loaded = load_replay_cache stored cache in
      (
        loaded,
        record {
          error = command_error d loaded doc;
          command_id = field (codes "command_id") doc;
          nonce = field (codes "nonce") doc;
          actor = field (codes "actor") doc;
        },
      )

-- The new globals, and the text to store, if one is stored.
unfoldable pub remember_accepted : Result → Cache → Cache × Option Text
remember_accepted r cache = elim r.error [
  | some e ↦ (cache, none)
  | none ↦
      let (c, persists) = remember r.command_id r.nonce cache in
      if is_empty r.command_id || is_empty r.nonce
      then (cache, none)
      else if persists
      then (c, some (encode (take c.count c.slots)))
      else (c, none)
]

-- The error that a rejection reports.
unfoldable pub canonical_error : Result → Error
canonical_error r = elim r.error [ none ↦ invalid_command | some e ↦ e ]
