-- ===== src/Command/Examples.antt =====
-- A signed command over toy libraries: the signature repeats the first bytes of what it signs.
use forge_key.Prelude.{
  replicate, ◌↔◌, ℕ, ◌+◌, ◌-◌, ◌*◌, ◌≡◌, refl, true, ◌&&◌, none, some, List, [], ◌∷◌, ◌++◌, arith,
  leb, if◌then◌else◌, length, take, replicate, Text, codes, is_empty, text_eq, ◌⊎◌,
}
use forge_key.Json.{Value, null, str, num, Document}
use forge_key.Command.Replay.{initial, replay_seen}
use forge_key.Command.Auth.{
  Libraries, Device, field, canonical_signing_input, parse_epoch, detached_error, signature_error,
  decode_base64_url, verify_es256_raw_signature,
}
use forge_key.Command.Validate.{authenticator_error, command_error, times_error, late_error}
use forge_key.Command.Replay.{Cache, blank}
use forge_key.Command.Validate.{times_error, late_error}
use forge_key.Command.Auth.{parse_epoch}
use forge_key.Command.Ring.{IsRing}
use forge_key.Command.Replay.{load_replay_cache, encode}
use forge_key.Command.Stored.{IsPlain, stored_text, replay_seen-load_replay_cache}
use forge_key.Command.Soundness.{IsAcceptable, command_error_iff}
use forge_key.Command.Authentic.{IsBound, IsSigned, authenticator_error_sound}

-- A leading run of digits as a number, and the rest.
unfoldable pub digits : ℕ → Text → Value × Text
digits n [] = (num n, [])
digits n (c ∷ cs) =
    let more = digits (n * 10 + (c - 48)) cs in
    if leb 48 c && leb c 57 then more else (num n, c ∷ cs)

abbrev pub toy : Libraries
toy = record {
  Key = Text;
  Tm = ℕ;
  base64_decode = λ t capacity. if leb (length t) capacity then some t else none;
  parse_ec_key = λ t. some t;
  ecdsa_verify = λ key input r s. text_eq (take 6 r) (take 6 input);
  deserialize = λ t. none;
  strtol = digits 0;
  strptime = λ t. none;
  mktime = λ tm. num tm;
}

abbrev pub device : Device
device = record {
  epoch_now = 1000;
  clock_valid = true;
  mac = codes "aa:bb:cc:dd:ee:ff";
  credential_key_pem = [];
  built_in_key_pem = codes "pem";
}

abbrev pub lookup : List (Text × Value) → Document
lookup [] name = null
lookup ((k, v) ∷ rest) name = if text_eq k name then v else lookup rest name

abbrev pub unlock : Document
unlock = lookup (
    (codes "cmd", str (codes "unlock"))
    ∷ (codes "command_id", str (codes "c1"))
    ∷ (codes "issued_at", str (codes "990"))
    ∷ (codes "expires_at", str (codes "1060"))
    ∷ (codes "nonce", str (codes "n1"))
    ∷ (codes "actor", str (codes "ann"))
    ∷ (codes "signature", str (codes "unlock" ++ replicate 58 b'A'))
    ∷ [])

unlock-accepted : command_error toy device initial unlock ≡ none
unfolding command_error text_eq times_error parse_epoch digits late_error replay_seen initial
    authenticator_error detached_error signature_error decode_base64_url verify_es256_raw_signature
    canonical_signing_input
unlock-accepted = refl

command_error_iff_example : (command_error toy device initial unlock ≡ none) ↔ (
    (issued_at : ℕ) × (expires_at : ℕ) × IsAcceptable toy device initial unlock issued_at
      expires_at)
command_error_iff_example = command_error_iff toy device initial unlock

authenticator_error_sound_example :
    IsBound toy device unlock []
    ⊎ ((is_empty [] ≡ true)
        × IsSigned toy device (canonical_signing_input unlock) (field (codes "signature") unlock))
unfolding text_eq authenticator_error detached_error signature_error decode_base64_url
    verify_es256_raw_signature canonical_signing_input
authenticator_error_sound_example = authenticator_error_sound toy device unlock refl

abbrev pub loaded_cache : Cache
loaded_cache = record { slots = replicate 16 blank; count = 0; next = 0; loaded = true }

pub loaded_cache-IsRing : IsRing loaded_cache
loaded_cache-IsRing = record {
  sixteen = refl;
  count_fits = omega arith;
  next_fits = omega arith;
  fills_up = λ h. refl;
}

-- One command in the cache, with a comma in its nonce.
abbrev kept_cache : Cache
kept_cache = record {
  slots = record { command_id = codes "c1"; nonce = codes "n,1" } ∷ replicate 15 blank;
  count = 1;
  next = 1;
  loaded = true;
}

replay_seen-load_replay_cache_example :
    let d = load_replay_cache (some (stored_text kept_cache)) initial in
    IsRing d
    × (replay_seen (codes "c1") (codes "n2") d ≡ replay_seen (codes "c1") (codes "n2") kept_cache)
unfolding encode
replay_seen-load_replay_cache_example =
    let plain : IsPlain (record { command_id = codes "c1"; nonce = codes "n,1" }) = record {
      fits = (refl, omega arith, refl, omega arith);
      no_comma = (refl, (refl, tt));
      no_semicolon = (refl, (refl, tt));
      no_semicolon_after = (refl, (refl, (refl, tt)));
    } in
    replay_seen-load_replay_cache (codes "c1") (codes "n2") kept_cache
      (record {
        sixteen = refl;
        count_fits = omega arith;
        next_fits = omega arith;
        fills_up = λ h. refl;
      })
      (plain, tt) (omega arith)
