-- ===== src/Main/Examples.antt =====
-- Messages on a fresh ring, and support mode across the wrap of the uptime.
use forge_key.Prelude.{
  ℕ, ◌≡◌, refl, true, false, Text, text_eq, none, some, index_of, List, [], ◌∷◌, arith, ltb, codes,
  if◌then◌else◌,
}
use forge_key.Json.{Value, null, str, Document}
use forge_key.Watchdog.State.{SubsystemState, Watchdog, ble}
use forge_key.Watchdog.Tick.{Readings, tick, refresh_links}
use forge_key.Watchdog.Safety.{restarts}
use forge_key.Ota.Strings.{starts_with, trim, trim_end, index_of_text}
use forge_key.Ota.Version.{compare_version, compare_rest, skip_others, read_number}
use forge_key.Ota.Rollout.{matches_rollout_cohort, device_cohort_bucket, hash_from}
use forge_key.Ota.Spec.{
  Spec, Platform, parse, read_spec, first_string, first_bool, deadline_text, parse_deadline_epoch,
}
use forge_key.Ota.Policy.{policy_refusal, matches_capability_target, any_active}
use forge_key.Ota.Url.{split_url, split_rest, host_url}
use forge_key.Ota.Digest.{to_hex, hex_eq}
use forge_key.Ota.Signature.{signature_holds, verify_signature}
use forge_key.Ota.Download.{download, download_round, take_in, report, want}
use forge_key.Ota.Apply.{
  apply, fetch, run_download, finish, image_refusal, status_code, content_length,
}
use forge_key.Ota.Installed.{IsInstalled}
use forge_key.Ota.Examples.{to_int, build, toy_tls, anchors, dispatch, world, byte_poll-Fits}
use forge_key.Main.Recovery.{recover_subsystem, watched, ble_recovery-restarts}
use forge_key.Main.Dispatch.{
  Message, Moment, read_message, is_busy, take_update, on_firmware_dispatch,
  on_firmware_dispatch-IsInstalled,
}
use forge_key.Main.Log.{Entry, initial, clipped}
use forge_key.Main.Buffered.{initial-IsRing, held, enqueue}
use forge_key.Main.Drained.{
  Call, emits, flushes, calls, seen, queue_calls, publish_front, calls-queue_calls,
}
use forge_key.Main.Support.{RapidCheck, Support}

abbrev note : ℕ → Entry
note t = record {
  timestamp_ms = t;
  level = codes "WARNING!";
  tag = codes "OTA";
  message = codes "late";
}

-- Two messages wait; the flush publishes one, and then the broker fails.
abbrev script : List Call
script = emits false (note 1) ∷ emits false (note 2) ∷ flushes (λ k. ltb k 1) ∷ []

calls-queue_calls_example :
    seen (calls script initial) ≡ (clipped (note 2) ∷ [], clipped (note 1) ∷ [])
unfolding initial held enqueue queue_calls publish_front
calls-queue_calls_example = calls-queue_calls script initial initial-IsRing

abbrev idle : Support
idle = record { until_ms = 0; last_heartbeat_ms = 0; debug_output = false }

-- The members of a JSON document.
abbrev members : List (Text × Value) → Document
members [] key = null
members ((name, v) ∷ vs) key = let rest = members vs key in if text_eq name key then v else rest

abbrev document : Document
document = members (
    (codes "url", str dispatch.url)
    ∷ (codes "sha256", str dispatch.sha256)
    ∷ (codes "signature", str dispatch.signature)
    ∷ (codes "version", str dispatch.version)
    ∷ [])

abbrev platform : Platform
platform = record {
  print_ulong = λ n. [];
  to_int = to_int;
  as_ulong = λ v. 0;
  as_bool = λ v. false;
}

abbrev moment : Moment
moment = record { extend_ms = 900; now = 910; uploaded_ms = 0; counts_people = false }

abbrev message : Message
message = some (document, none)

abbrev no_checks : RapidCheck
no_checks = record { until_ms = 0; next_ms = 0 }

-- What `apply` does with the specification of that document.
abbrev parsed : Spec
parsed = record {
  url = dispatch.url;
  sha256 = dispatch.sha256;
  signature = dispatch.signature;
  signing_cert = [];
  version = dispatch.version;
  mandatory = false;
  minimum_version = [];
  maximum_version = [];
  hardware_target = [];
  capability_target = [];
  rollout_cohort = [];
  deadline = [];
  deadline_epoch = 0;
}

on_firmware_dispatch-IsInstalled_example :
    (spec : Spec) × (read_message platform message ≡ some spec)
    × (text_eq spec.version build.firmware_version ≡ false)
    × (is_busy moment spec ≡ false)
    × IsInstalled toy_tls anchors to_int build world spec
unfolding on_firmware_dispatch take_update apply fetch run_download finish download download_round
    take_in report want split_url split_rest host_url index_of_text starts_with trim trim_end
    index_of status_code content_length image_refusal policy_refusal compare_version compare_rest
    skip_others read_number matches_capability_target any_active matches_rollout_cohort
    device_cohort_bucket hash_from hex_eq to_hex signature_holds verify_signature text_eq parse
    read_spec first_string first_bool deadline_text parse_deadline_epoch
on_firmware_dispatch-IsInstalled_example =
    on_firmware_dispatch-IsInstalled toy_tls anchors platform build world false moment message
      no_checks [] (apply toy_tls anchors to_int build world parsed false)
      (byte_poll-Fits 1010 7, (byte_poll-Fits 1020 255, tt)) refl refl

-- An overdue BLE subsystem, with the links up.
abbrev fine : SubsystemState
fine = record {
  timeout_ms = 300000;
  last_healthy_ms = 840000;
  first_overdue_ms = 0;
  last_warning_ms = 0;
  warning_count = 0;
  recovery_count = 0;
  busy = false;
  enabled = true;
  overdue = false;
}

abbrev silent_ble : SubsystemState
silent_ble = record fine { last_healthy_ms = 1000 }

abbrev watchdog : Watchdog
watchdog = record {
  subsystems = fine ∷ fine ∷ fine ∷ fine ∷ silent_ble ∷ fine ∷ fine ∷ [];
  started = true;
  suspend_depth = 0;
  suspend_reason = none;
  boot_ms = 0;
}

abbrev readings : Readings
readings = record { now = 900000; wifi_ms = 900000; mqtt_ms = 900000; recovered_ms = λ i. 900000 }

ble_recovery-restarts_example :
    (recover_subsystem true true ble ≡ (true, []))
    × (restarts (tick 0 readings (watched true true true) watchdog).1 ≡ true)
unfolding refresh_links watched
ble_recovery-restarts_example =
    ble_recovery-restarts 0 readings watchdog silent_ble true true true refl refl refl (omega arith)
      (omega arith) refl
