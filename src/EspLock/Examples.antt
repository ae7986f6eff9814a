-- ===== src/EspLock/Examples.antt =====
-- The lock firmware over toy libraries: a token of six bytes that its signature repeats, and claims
-- that say nothing.
use forge_key.Prelude.{
  ◌<◌, ◌≡◌, ◌≢◌, ap, refl, true, false, none, some, [], ◌∷◌, ◌++◌, arith, pos, if◌then◌else◌,
  replicate, Text, codes, text_eq, index_of,
}
use forge_key.Json.{null, str, Document}
use forge_key.Command.Examples.{toy, device, lookup, digits}
use forge_key.Command.Replay
use forge_key.Command.Replay.{replay_seen, any_match}
use forge_key.Command.Ring.{initial-IsRing}
use forge_key.Command.Auth.{
  Libraries, parse_epoch, pad, verify_es256_raw_signature, canonical_signing_input,
}
use forge_key.Command.Validate.{time_error}
use forge_key.EspLock.State.{no_trigger, secure, unlocked, Lock, initial, begin, Pin}
use forge_key.EspLock.Tick.{Inputs}
use forge_key.EspLock.Orders.{handle_unlock, set_lockout, open_lock}
use forge_key.EspLock.Token.{
  split_token, base64url_decode, validate_signed_command, validate_command_signature, claims_hold,
}
use forge_key.EspLock.Validation.{authenticator_error, late_error, times_error, command_error}
use forge_key.EspLock.Dispatch.{Message, Result, on_command, of_lock}
use forge_key.EspLock.Lockout.{
  ticks, unlocks, emergencies, commissions, calls, IsLockedOut, lockout_holds,
}
use forge_key.EspLock.Guard.{tick_all, second_unlock-pauses}
use forge_key.EspLock.Envelope.{rename, IsAccepted, renamed_command_error}
use forge_key.EspLock.Trust.{on_command_sound, disguised_unlocks}

abbrev lib : Libraries
lib = record toy { deserialize = λ t. some (λ name. null) }

abbrev token : Text
token = codes "AAAAAA.p." ++ replicate 64 b'A'

abbrev closed : Inputs
closed = record { reed_raw = true; latch_raw = true; ir_raw = false; mortise_raw = false }

abbrev ajar : Inputs
ajar = record { reed_raw = false; latch_raw = false; ir_raw = false; mortise_raw = false }

lockout_holds_example : IsLockedOut (
    calls lib
      (set_lockout true 500 (calls lib (begin 10 initial) (emergencies 400 ∷ [])))
      (ticks 510 ajar ∷ unlocks device token (pos 0) 600 ∷ commissions 700 ∷ []))
lockout_holds_example =
    lockout_holds lib 10 500 (emergencies 400 ∷ [])
      (ticks 510 ajar ∷ unlocks device token (pos 0) 600 ∷ commissions 700 ∷ [])
      (tt, (tt, (tt, tt)))

abbrev shut : Pin
shut = record { value = true; debounce_time = 1000; init = true }

-- A lock at rest.
abbrev resting : Lock
resting = record {
  state = secure;
  last_trigger = no_trigger;
  mac_address = [];
  reed_closed = shut;
  latch_locked = shut;
  ir_broken = record shut { value = false };
  mortise_active = record shut { value = false };
  solenoid_start_ms = 0;
  solenoid_active = false;
  solenoid_on = false;
  state_start_ms = 0;
  last_telemetry_ms = 0;
  led_level = false;
  led_last_toggle_ms = 0;
  last_secure = true;
  last_item_present = false;
  guard_depth = 0;
}

abbrev opened : Lock
opened = (handle_unlock lib device token (pos 0) 1000 resting).0

-- A second command within the first pulse, and two ticks behind both.
abbrev after_two : Lock
after_two =
    tick_all (handle_unlock lib device token (pos 0) 1200 opened).0
      ((3000, closed) ∷ (9000, closed) ∷ [])

second_unlock-pauses_example : 0 < after_two.guard_depth
unfolding handle_unlock validate_signed_command split_token base64url_decode pad index_of text_eq
    verify_es256_raw_signature claims_hold open_lock
second_unlock-pauses_example =
    second_unlock-pauses lib device device token token (pos 0) (pos 0) 1000 1200 resting []
      ((3000, closed) ∷ (9000, closed) ∷ []) (omega arith) refl refl refl

-- A command with a token, and another signed by itself.
abbrev unlock : Document
unlock = lookup (
    (codes "cmd", str (codes "unlock"))
    ∷ (codes "command_id", str (codes "c1"))
    ∷ (codes "issued_at", str (codes "990"))
    ∷ (codes "expires_at", str (codes "1060"))
    ∷ (codes "nonce", str (codes "n1"))
    ∷ (codes "actor", str (codes "ann"))
    ∷ (codes "jwt", str token)
    ∷ [])

abbrev ping : Document
ping = lookup (
    (codes "cmd", str (codes "ping"))
    ∷ (codes "command_id", str (codes "c1"))
    ∷ (codes "issued_at", str (codes "990"))
    ∷ (codes "expires_at", str (codes "1060"))
    ∷ (codes "nonce", str (codes "n1"))
    ∷ (codes "actor", str (codes "ann"))
    ∷ (codes "signature", str (codes "ping" ++ b'\n' ∷ b'c' ∷ replicate 58 b'A'))
    ∷ [])

-- The signed command, with a member "CMD" in front.
abbrev disguised : Message
disguised = record {
  exact = ping;
  any_case =
      λ name. if text_eq name (codes "cmd") then str (codes "emergency_unlock") else ping name;
  operator_id = null;
}

unlock-accepted : command_error lib device Replay.initial unlock ≡ none
unfolding command_error times_error late_error authenticator_error parse_epoch digits replay_seen
    any_match time_error validate_signed_command split_token base64url_decode pad index_of text_eq
    verify_es256_raw_signature claims_hold Replay.initial
unlock-accepted = refl

renamed_command_error_example :
    command_error lib device Replay.initial (rename (codes "c2") (codes "n2") unlock) ≡ none
unfolding replay_seen any_match Replay.initial text_eq
renamed_command_error_example =
    renamed_command_error lib device Replay.initial Replay.initial unlock (codes "c2") (codes "n2")
      unlock-accepted refl refl refl (omega arith) (omega arith) refl

ping-accepted : command_error lib (of_lock device resting) Replay.initial ping ≡ none
unfolding command_error times_error late_error authenticator_error parse_epoch digits replay_seen
    any_match time_error validate_command_signature base64url_decode pad text_eq
    verify_es256_raw_signature canonical_signing_input Replay.initial
ping-accepted = refl

disguised_unlocks_example :
    ((on_command lib device disguised 2000 Replay.initial resting).lock.state ≡ unlocked)
    × ((on_command lib device disguised 2000 Replay.initial resting).lock.solenoid_on ≡ true)
unfolding text_eq
disguised_unlocks_example =
    disguised_unlocks lib device disguised 2000 Replay.initial resting ping-accepted refl

disguised-moves : (on_command lib device disguised 2000 Replay.initial resting).lock ≢ resting
unfolding text_eq
disguised-moves e = cc (
  ap (λ (x : Lock). x.state) e,
  (disguised_unlocks lib device disguised 2000 Replay.initial resting ping-accepted refl).0,
)

on_command_sound_example :
    IsAccepted lib (of_lock device resting) Replay.initial ping
    × (replay_seen
          (codes "c1")
          (codes "n1")
          (on_command lib device disguised 2000 Replay.initial resting).cache
        ≡ true)
unfolding text_eq
on_command_sound_example =
    on_command_sound lib device disguised 2000 Replay.initial resting initial-IsRing disguised-moves

abbrev first : Result
first = on_command lib device disguised 2000 Replay.initial resting

abbrev second : Result
second = on_command lib device disguised 2010 first.cache first.lock
