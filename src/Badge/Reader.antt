-- ===== src/Badge/Reader.antt =====
-- The globals of the badge reader, its debouncing, `setupFn` and `tickFn`.
use forge_key.Prelude.{
  ℕ, ◌+◌, ◌-◌, ◌/◌, ◌%◌, Bool, true, false, not, ◌&&◌, ◌||◌, Option, none, some, List, [], ◌∷◌,
  ◌++◌, ltb, leb, ◌==◌, if◌then◌else◌, take, replicate, min, Text, text_eq, elapsed,
}
use forge_key.Ble.Identity.{hex}

-- CardUid: `bytes` is the whole array of ten.
pub record CardUid : Type 0 where
  pub bytes : Text
  pub length : ℕ

-- The globals; g_reader is an argument.
pub record BadgeReader : Type 0 where
  pub ready : Bool
  pub last_poll_ms : ℕ
  pub last_uid : CardUid
  pub have_last : Bool
  pub last_publish_ms : ℕ

-- kMaxUidBytes
abbrev pub max_uid_bytes : ℕ
max_uid_bytes = 10

abbrev pub poll_interval_ms : ℕ
poll_interval_ms = 50

abbrev pub debounce_ms : ℕ
debounce_ms = 2000

unfoldable pub initial : BadgeReader
initial = record {
  ready = false;
  last_poll_ms = 0;
  last_uid = record { bytes = replicate max_uid_bytes 0; length = 0 };
  have_last = false;
  last_publish_ms = 0;
}

unfoldable pub same_uid : CardUid → CardUid → Bool
same_uid a b = a.length == b.length && text_eq (take a.length a.bytes) (take a.length b.bytes)

unfoldable pub should_publish : CardUid → ℕ → BadgeReader → Bool
should_publish uid now s =
    if not s.have_last || not (same_uid uid s.last_uid)
    then true
    else leb debounce_ms (elapsed now s.last_publish_ms)

unfoldable pub record_published : CardUid → ℕ → BadgeReader → BadgeReader
record_published uid now s = record s { last_uid = uid; have_last = true; last_publish_ms = now }

-- kHex
abbrev pub hex_char : ℕ → ℕ
hex_char d = if ltb d 10 then b'0' + d else b'A' + d - 10

-- The loop of `formatUidHex`: `room` is outLen - pos.
unfoldable pub format_from : ℕ → Text → Text
format_from room [] = []
format_from room (b ∷ bs) =
    let rest = format_from (room - 2) bs in
    if ltb 2 room then hex_char (b / 16 % 16) ∷ hex_char (b % 16) ∷ rest else []

-- With a buffer of 21 bytes.
unfoldable pub format_uid_hex : CardUid → Text
unfolding format_from
format_uid_hex uid = format_from 21 (take (min uid.length max_uid_bytes) uid.bytes)

-- The members of the message that are no constants.
pub record AccessRequest : Type 0 where
  pub credential_id : Text
  pub reader_id : Text
  pub timestamp : Option ℕ
  pub nonce : Text

-- What a tick meets: millis(), the answer of the reader, the time where the clock is valid, and two
-- random numbers of 32 bits.
pub record CardPoll : Type 0 where
  pub now : ℕ
  pub read : Option CardUid
  pub epoch : Option ℕ
  pub random_high : ℕ
  pub random_low : ℕ

unfoldable pub make_nonce : ℕ → ℕ → Text
make_nonce high low = hex 8 high ++ hex 8 low

abbrev pub access_request : Text → CardPoll → CardUid → AccessRequest
access_request reader_id p uid = record {
  credential_id = format_uid_hex uid;
  reader_id = reader_id;
  timestamp = p.epoch;
  nonce = make_nonce p.random_high p.random_low;
}

-- What follows a poll that found a card.
unfoldable pub take_card :
    Text → CardPoll → CardUid → BadgeReader → BadgeReader × Option AccessRequest
take_card reader_id p uid s =
    if uid.length == 0
    then (s, none)
    else if not (should_publish uid p.now s)
    then (s, none)
    else (record_published uid p.now s, some (access_request reader_id p uid))

-- What is published goes to publishAccessRequest, whose answer is only printed.
unfoldable pub tick : Text → CardPoll → BadgeReader → BadgeReader × Option AccessRequest
unfolding take_card
tick reader_id p s =
    if not s.ready
    then (s, none)
    else if ltb (elapsed p.now s.last_poll_ms) poll_interval_ms
    then (s, none)
    else elim p.read [
      | none ↦ (record s { last_poll_ms = p.now }, none)
      | some uid ↦ take_card reader_id p uid (record s { last_poll_ms = p.now })
    ]

-- `begins` is what g_reader->begin() returns, false where there is no reader.
unfoldable pub setup : Bool → BadgeReader → BadgeReader
setup begins s = record s { ready = begins }

abbrev pub published : Option AccessRequest → List AccessRequest → List AccessRequest
published none rest = rest
published (some r) rest = r ∷ rest

-- The events of some ticks.
unfoldable pub events : Text → List CardPoll → BadgeReader → List AccessRequest
unfolding tick
events reader_id [] s = []
events reader_id (p ∷ ps) s = let r = tick reader_id p s in published r.1 (events reader_id ps r.0)
