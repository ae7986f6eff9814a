-- ===== src/Ota/Examples.antt =====
-- An update of two bytes over toy libraries: the digest is the image padded by zeros, and a
-- signature is the digest itself.
use forge_key.Prelude.{
  ℕ, zero, suc, ◌+◌, ◌-◌, ◌*◌, ◌≡◌, ◌↔◌, refl, true, false, none, some, List, [], ◌∷◌, ◌++◌, ℤ, pos,
  arith, leb, if◌then◌else◌, length, take, replicate, Text, codes, text_eq, index_of, u32, All, ◌⊎◌,
}
use forge_key.Ota.Strings.{starts_with, trim, trim_end, index_of_text}
use forge_key.Ota.Version.{
  compare_version, compare_rest, skip_others, read_number, is_digit, less, compare_version_ends,
}
use forge_key.Ota.Rollout.{matches_rollout_cohort, device_cohort_bucket, hash_from}
use forge_key.Ota.Spec.{Spec}
use forge_key.Ota.Policy.{Build, policy_refusal, matches_capability_target, any_active}
use forge_key.Ota.Allowed.{Allows, policy_refusal_iff}
use forge_key.Ota.Url.{split_url, split_rest, host_url}
use forge_key.Ota.Printed.{split_url-print}
use forge_key.Ota.Digest.{to_hex, hex_eq}
use forge_key.Ota.Signature.{Mbedtls, Anchors, signature_holds, verify_signature}
use forge_key.Ota.Download.{Poll, started, download, download_round, take_in, report, want}
use forge_key.Ota.Rounds.{IsDelivering, ArePaced, Ends, download-Ends, Fits}
use forge_key.Ota.Apply.{
  World, Outcome, apply, fetch, run_download, finish, image_refusal, status_code, content_length,
}
use forge_key.Ota.Installed.{IsInstalled, apply-IsInstalled}
use forge_key.Ota.Failure.{apply-IsClean}
use forge_key.Ota.Tally.{IsClean}

-- 1.9-rc2 comes before 1.10.
compare_version_ends_example : compare_version (codes "v1.9-rc2") (codes "1.10") ≡ some less
compare_version_ends_example = compare_version_ends (codes "v1.9-rc2") (codes "1.10")

-- The number in front of a text.
abbrev number : ℕ → Text → ℕ
number n [] = n
number n (c ∷ cs) = let more = number (n * 10 + (c - 48)) cs in if is_digit c then more else n

abbrev pub to_int : Text → ℤ
to_int t = pos (number 0 (trim t))

abbrev mac : Text
mac = codes "AA:BB:CC:DD:EE:FF"

abbrev pub build : Build
build = record {
  firmware_version = codes "1.4.2";
  build_target = codes "esp32c6";
  sensor_kind = codes "lock";
  mac = mac;
  capabilities = (true, codes "power_relay") ∷ [];
}

abbrev pub image : Text
image = 7 ∷ 255 ∷ []

abbrev pub digest_of : Text → Text
digest_of t = take 32 (t ++ replicate 32 0)

abbrev pub toy_tls : Mbedtls
toy_tls = record {
  Key = Text;
  Cert = Text;
  sha256 = digest_of;
  base64_decode = λ t capacity. if leb (length t) capacity then some t else none;
  parse_public_key = λ t. some t;
  pk_verify = λ key digest signature. text_eq digest signature;
  crt_parse = λ t. some t;
  crt_verify = λ leaf root. text_eq leaf root;
  has_code_signing = λ leaf. true;
  crt_key = λ leaf. leaf;
}

abbrev pub anchors : Anchors
anchors = record { firmware_key_pem = codes "pem"; internal_ca_pem = codes "ca" }

abbrev pub dispatch : Spec
dispatch = record {
  url = codes "https://oms.local:8443/fw/2.bin";
  sha256 = to_hex (digest_of image);
  signature = digest_of image;
  signing_cert = [];
  version = codes "2.0.0";
  mandatory = false;
  minimum_version = codes "1.4";
  maximum_version = [];
  hardware_target = codes "all";
  capability_target = codes "power_relay";
  rollout_cohort = codes "pct:100";
  deadline = [];
  deadline_epoch = 0;
}

policy_refusal_iff_example :
    (policy_refusal to_int build dispatch ≡ none) ↔ Allows to_int build dispatch
policy_refusal_iff_example = policy_refusal_iff to_int build dispatch

split_url-print_example :
    split_url to_int (codes "https://oms.local:8443/fw/2.bin")
    ≡ some (record { tls = true; host = codes "oms.local"; port = 8443; path = codes "/fw/2.bin" })
unfolding trim trim_end
split_url-print_example =
    split_url-print to_int true (codes "oms.local") (some (codes "8443")) (codes "fw/2.bin") refl
      refl refl

-- A poll that delivers one byte.
abbrev byte_poll : ℕ → ℕ → Poll
byte_poll now byte = record {
  available = 1;
  connected = true;
  now = now;
  read = λ n. take n (byte ∷ []);
  write_ok = true;
}

-- A server that is silent for ever.
silent : ℕ → ℕ → List Poll
silent zero clock = []
silent (suc n) clock =
    record {
      available = 0;
      connected = true;
      now = u32 (clock + 5);
      read = λ k. replicate k 0;
      write_ok = true;
    }
    ∷ silent n (u32 (clock + 5))

length-replicate : (n : ℕ) → length (replicate {A = ℕ} n 0) ≡ n
length-replicate zero = refl
length-replicate (suc n) = omega (arith, length-replicate n)

length-silent : (n clock : ℕ) → length (silent n clock) ≡ n
unfolding silent
length-silent zero clock = refl
length-silent (suc n) clock = omega (arith, length-silent n (u32 (clock + 5)))

silent-ArePaced : (n clock : ℕ) → ArePaced clock (silent n clock)
unfolding silent
silent-ArePaced zero clock = tt
silent-ArePaced (suc n) clock = (
  record { passed = 5; positive = omega arith; bounded = omega arith; reads = refl },
  silent-ArePaced n (u32 (clock + 5)),
)

silent-IsDelivering : (n clock : ℕ) → All IsDelivering (silent n clock)
unfolding silent
silent-IsDelivering zero clock = tt
silent-IsDelivering (suc n) clock = (
  record {
    fits = λ k. omega (arith, length-replicate k);
    delivers = λ k h. omega (arith, length-replicate k, h);
  },
  silent-IsDelivering n (u32 (clock + 5)),
)

download-Ends_example : Ends (download 2 (silent 60005 1000) (started 1000))
download-Ends_example =
    download-Ends 2 1000 (silent 60005 1000) (omega arith) (silent-IsDelivering 60005 1000)
      (silent-ArePaced 60005 1000) (omega (arith, length-silent 60005 1000))

abbrev pub world : World
world = record {
  connects = λ host port. true;
  status_line = codes "HTTP/1.1 200 OK\r";
  headers = codes "Content-Length: 2\r" ∷ codes "\r" ∷ [];
  begins = true;
  start_ms = 1000;
  polls = byte_poll 1010 7 ∷ byte_poll 1020 255 ∷ [];
  ends = true;
}

pub byte_poll-Fits : (now byte : ℕ) → Fits (byte_poll now byte)
byte_poll-Fits now byte zero = omega arith
byte_poll-Fits now byte (suc zero) = omega arith
byte_poll-Fits now byte (suc (suc n)) = omega arith

apply-IsInstalled_example : IsInstalled toy_tls anchors to_int build world dispatch
unfolding apply fetch run_download finish download download_round take_in report want split_url
    split_rest host_url index_of_text starts_with trim trim_end index_of status_code content_length
    image_refusal policy_refusal compare_version compare_rest skip_others read_number
    matches_capability_target any_active matches_rollout_cohort device_cohort_bucket hash_from
    hex_eq to_hex signature_holds verify_signature text_eq
apply-IsInstalled_example =
    apply-IsInstalled toy_tls anchors to_int build world dispatch false
      (byte_poll-Fits 1010 7, (byte_poll-Fits 1020 255, tt)) refl

-- The dispatch with another signature, and what becomes of it.
abbrev forged : Spec
forged = record dispatch { signature = image }

abbrev outcome : Outcome
outcome = apply toy_tls anchors to_int build world forged false

apply-IsClean_example :
    IsClean true outcome.effects
    × ((outcome.updating ≡ false)
        ⊎ ((split_url to_int forged.url ≡ none) × (outcome.updating ≡ false)))
unfolding apply fetch run_download finish download download_round take_in report want split_url
    split_rest host_url index_of_text starts_with trim trim_end index_of status_code content_length
    image_refusal policy_refusal compare_version compare_rest skip_others read_number
    matches_capability_target any_active matches_rollout_cohort device_cohort_bucket hash_from
    hex_eq to_hex signature_holds verify_signature text_eq
apply-IsClean_example = apply-IsClean toy_tls anchors to_int build world forged false refl
