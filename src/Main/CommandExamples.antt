-- ===== src/Main/CommandExamples.antt =====
-- A signed unlock command on a lock, and its repetition.
use forge_key.Prelude.{
  ◌≡◌, refl, ◌⊎◌, inl, true, false, none, some, [], ◌∷◌, arith, codes, text_eq, pos,
}
use forge_key.Json.{Conversions}
use forge_key.Command.Auth.{
  Error, field, parse_epoch, detached_error, signature_error, decode_base64_url,
  verify_es256_raw_signature, canonical_signing_input,
}
use forge_key.Command.Replay.{replay_seen, any_match, load_replay_cache}
use forge_key.Command.Validate.{
  command_error, times_error, late_error, time_error, authenticator_error,
}
use forge_key.Command.Examples.{toy, device, digits, unlock, loaded_cache, loaded_cache-IsRing}
use forge_key.Lock.State
use forge_key.Main.Indicator.{Message, Numbers}
use forge_key.Main.Commands.{Flags, rejected, parse_failed, Machine, Moment, on_command_message}
use forge_key.Main.Authority.{IsUntouched, on_command_message_sound}
use forge_key.Command.Replay
use forge_key.Command.Replay.{remember, encode}
use forge_key.Command.Stored.{IsPlain}
use forge_key.Command.Validate.{validate, remember_accepted}
use forge_key.Main.Commands.{answer, perform, perform_common, perform_lock, remembered}
use forge_key.Main.Reboot.{performed_once_across_reboot}
use forge_key.Main.Once.{post, take_post, take_posts, performed_once}

abbrev flags : Flags
flags = record {
  is_lock = true;
  counts_people = false;
  has_matrix = true;
  has_relay = false;
  has_scanner = false;
  has_beacon = false;
  has_equipment = false;
}

abbrev nums : Numbers
nums = record { as_int = λ v. pos 0; is_int = λ v. false; ulong_or = λ v n. n }

abbrev json : Conversions
json = record { as_u8 = λ v. 0; as_bool = λ v. true }

abbrev moment : Moment
moment = record {
  blinking = false;
  camera_ready = false;
  now = 5000;
  unlock_now = 5000;
  unlock_later = 5001;
}

abbrev machine : Machine
machine = record {
  cache = loaded_cache;
  stored = none;
  support = record { until_ms = 0; last_heartbeat_ms = 0; debug_output = false };
  lock = State.initial;
}

abbrev message : Message
message = record { fields = unlock; color_items = none }

performed_once_example :
    let u =
      take_posts toy flags nums json
        (post device moment message
          ∷ record { device = device; moment = moment; message = none }
          ∷ [])
        machine in
    let r = on_command_message toy flags nums json device moment (some message) u in
    (e : Error) × (r.1 ≡ rejected e ∷ []) × (r.0.lock ≡ u.lock) × (r.0.support ≡ u.support)
unfolding text_eq command_error times_error late_error time_error parse_epoch digits replay_seen
    any_match authenticator_error detached_error signature_error decode_base64_url
    verify_es256_raw_signature canonical_signing_input on_command_message validate answer perform
    perform_common perform_lock take_post load_replay_cache
performed_once_example =
    performed_once toy flags nums json device device moment moment message message
      (record { device = device; moment = moment; message = none } ∷ []) machine loaded_cache-IsRing
      refl (omega arith) (refl, (refl, tt)) refl (inl refl)

on_command_message_sound_example :
    let (after, actions) =
      on_command_message toy flags nums json device moment (some message) machine in
    ((some message ≡ none) × (after ≡ machine) × (actions ≡ parse_failed ∷ []))
    ⊎ ((m : Message) × (some message ≡ some m)
        × (((e : Error) × (command_error toy device (load_replay_cache none loaded_cache) m.fields
                ≡ some e)
              × (after.lock ≡ machine.lock)
              × (after.support ≡ machine.support)
              × (actions ≡ rejected e ∷ []))
            ⊎ ((command_error toy device (load_replay_cache none loaded_cache) m.fields ≡ none)
                × IsUntouched toy flags nums json device
                    (field (codes "cmd") m.fields)
                    m
                    machine.lock
                    after.lock)))
on_command_message_sound_example =
    on_command_message_sound toy flags nums json device moment (some message) machine

abbrev after_unlock : Machine
after_unlock = (on_command_message toy flags nums json device moment (some message) machine).0

abbrev rebooted : Machine
rebooted = record after_unlock { cache = Replay.initial }

performed_once_across_reboot_example :
    let r = on_command_message toy flags nums json device moment (some message) rebooted in
    (e : Error) × (r.1 ≡ rejected e ∷ [])
    × (r.0.lock ≡ rebooted.lock)
    × (r.0.support ≡ rebooted.support)
unfolding text_eq command_error times_error late_error time_error parse_epoch digits replay_seen
    any_match authenticator_error detached_error signature_error decode_base64_url
    verify_es256_raw_signature canonical_signing_input on_command_message validate answer perform
    perform_common perform_lock remembered remember_accepted remember take_posts take_post
    load_replay_cache encode
performed_once_across_reboot_example =
    let plain : IsPlain (record { command_id = codes "c1"; nonce = codes "n1" }) = record {
      fits = (refl, omega arith, refl, omega arith);
      no_comma = (refl, (refl, tt));
      no_semicolon = (refl, (refl, tt));
      no_semicolon_after = (refl, (refl, tt));
    } in
    performed_once_across_reboot toy flags nums json device device moment moment message message []
      machine rebooted loaded_cache-IsRing refl (omega arith) (refl, tt) refl (inl refl) (plain, tt)
      (omega arith) refl refl
