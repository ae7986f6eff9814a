-- ===== src/Ota/Apply.antt =====
-- `apply`: request, download, checks, installation.
use forge_key.Prelude.{
  ℕ, suc, ◌==◌, Bool, true, false, not, ◌||◌, Option, none, some, List, [], ◌∷◌, ◌++◌, ℤ, pos,
  negsuc, if◌then◌else◌, take, drop, Text, codes, is_empty, index_of,
}
use forge_key.Ota.Strings.{trim, starts_with}
use forge_key.Ota.Spec.{Spec, to_u32}
use forge_key.Ota.Policy.{Build, policy_refusal}
use forge_key.Ota.Url.{Url, split_url}
use forge_key.Ota.Digest.{to_hex, hex_eq}
use forge_key.Ota.Signature.{Mbedtls, Anchors, signature_holds}
use forge_key.Ota.Download.{
  malformed_url, connect_failed, no_content_length, update_begin_failed, sha256_mismatch,
  bad_base64_signature, signature_invalid, update_end_failed, Notice, downloading, verifying,
  rebooting, http_status, failed, rejected, Effect, notify, connect, request, stop, update_begin,
  update_abort, update_end, watchdog_suspend, watchdog_resume, store_versions, restart, Poll,
  Download, started, running, broken, complete, download,
}

-- The network and the flash during one call. The header lines end at the first that is empty; where
-- the list ends, the client reads an empty line.
pub record World : Type 0 where
  pub connects : Text → ℕ → Bool
  pub status_line : Text
  pub headers : List Text
  pub begins : Bool
  pub start_ms : ℕ
  pub polls : List Poll
  pub ends : Bool

-- How a call stands: it has returned false, restarted the device, or is still downloading.
pub data End : Type 0 where
  refused restarted downloading_still : End

-- `updating` is the member after the call.
pub record Outcome : Type 0 where
  pub end : End
  pub updating : Bool
  pub effects : List Effect

unfoldable pub status_code : (Text → ℤ) → Text → ℤ
unfolding trim
status_code to_int line =
    let t = trim line in
    elim (index_of b' ' t) [
      | none ↦ pos 0
      | some sp1 ↦ elim (index_of b' ' (drop (suc sp1) t)) [
        | none ↦ pos 0
        | some gap ↦ to_int (take gap (drop (suc sp1) t))
      ]
    ]

abbrev pub is_200 : ℤ → Bool
is_200 (pos n) = n == 200
is_200 (negsuc n) = false

abbrev behind_colon : Text → Text
behind_colon t = elim (index_of b':' t) [ none ↦ t | some i ↦ drop (suc i) t ]

-- The loop over the header lines.
unfoldable pub content_length : (Text → ℤ) → ℕ → List Text → ℕ
unfolding trim starts_with
content_length to_int total [] = total
content_length to_int total (line ∷ lines) =
    let t = trim line in
    let found =
      starts_with (codes "Content-Length:") t || starts_with (codes "content-length:") t in
    let rest =
      content_length to_int (if found then to_u32 (to_int (behind_colon t)) else total) lines in
    if is_empty t then total else rest

module _ (tls : Mbedtls) (anchors : Anchors) (to_int : Text → ℤ) (build : Build) where
  -- The checks of a downloaded image by its digest; `none` where all pass.
  unfoldable pub image_refusal : Spec → Text → Option Notice
  image_refusal spec digest = elim (policy_refusal to_int build spec) [
    | some reason ↦ some (rejected reason)
    | none ↦
        if not (hex_eq (to_hex digest) spec.sha256)
        then some (failed sha256_mismatch)
        else elim (tls.base64_decode spec.signature 128) [
          | none ↦ some (failed bad_base64_signature)
          | some signature ↦
              if not (signature_holds tls anchors spec.signing_cert digest signature)
              then some (failed signature_invalid)
              else none
        ]
  ]

  -- After the last byte.
  unfoldable pub finish : World → Spec → List Effect → Download → Outcome
  finish w spec log d =
      let log' = log ++ stop ∷ notify verifying ∷ [] in
      elim (image_refusal spec (tls.sha256 d.hashed)) [
        | some n ↦ record {
          end = refused;
          updating = false;
          effects = log' ++ update_abort ∷ notify n ∷ watchdog_resume ∷ [];
        }
        | none ↦
            if not w.ends
            then record {
              end = refused;
              updating = false;
              effects =
                  log' ++ update_end ∷ notify (failed update_end_failed) ∷ watchdog_resume ∷ [];
            }
            else record {
              end = restarted;
              updating = true;
              effects =
                  log'
                  ++ update_end
                    ∷ store_versions build.firmware_version spec.version
                    ∷ notify rebooting
                    ∷ restart
                    ∷ [];
            }
      ]

  unfoldable pub run_download : World → Spec → List Effect → ℕ → Outcome
  run_download w spec log total = elim (download total w.polls (started w.start_ms)) [
    | running d ↦ record { end = downloading_still; updating = true; effects = log ++ d.log }
    | broken s d ↦ record {
      end = refused;
      updating = false;
      effects = (log ++ d.log) ++ update_abort ∷ stop ∷ notify (failed s) ∷ watchdog_resume ∷ [];
    }
    | complete d ↦ finish w spec (log ++ d.log) d
  ]

  abbrev give_up_early : List Effect → Outcome
  give_up_early log = record { end = refused; updating = false; effects = log }

  -- From the URL's parts on.
  unfoldable pub fetch : World → Spec → Url → Outcome
  unfolding status_code content_length
  fetch w spec url =
      let opened = notify (downloading 0) ∷ connect url.host url.port ∷ [] in
      let asked = opened ++ request url.path url.host ∷ [] in
      let code = status_code to_int w.status_line in
      let total = content_length to_int 0 w.headers in
      if not (w.connects url.host url.port)
      then give_up_early (opened ++ notify (failed connect_failed) ∷ [])
      else if not (is_200 code)
      then give_up_early (asked ++ stop ∷ notify (http_status code) ∷ [])
      else if total == 0
      then give_up_early (asked ++ stop ∷ notify (failed no_content_length) ∷ [])
      else if not w.begins
      then give_up_early
          (asked ++ update_begin total ∷ stop ∷ notify (failed update_begin_failed) ∷ [])
      else run_download w spec (asked ++ update_begin total ∷ watchdog_suspend ∷ []) total

  -- `was_updating` is the member before the call.
  unfoldable pub apply : World → Spec → Bool → Outcome
  apply w spec was_updating = elim (split_url to_int spec.url) [
    | none ↦ record {
      end = refused;
      updating = was_updating;
      effects = notify (failed malformed_url) ∷ [];
    }
    | some url ↦ fetch w spec url
  ]
