-- ===== src/Ota/Installed.antt =====
-- What a restart of `apply` shows: the installed image passed every check.
use forge_key.Prelude.{
  ℕ, ◌==◌, ◌≡◌, ◌≢◌, refl, Bool, true, false, not, none, some, List, ◌++◌, ℤ, arith, if◌then◌else◌,
  length, Text, All, Bool-cases, Option-cases, ◌⊎◌, inl, inr,
}
use forge_key.Ota.Spec.{Spec}
use forge_key.Ota.Policy.{Build, policy_refusal}
use forge_key.Ota.Allowed.{Allows, policy_refusal_iff}
use forge_key.Ota.Url.{Url, split_url}
use forge_key.Ota.Digest.{to_hex, hex_eq}
use forge_key.Ota.Signature.{
  Mbedtls, Anchors, signature_holds, IsTrusted, signature_holds-IsTrusted,
}
use forge_key.Ota.Download.{
  Effect, Stage, Download, Progress, running, broken, complete, started, download,
}
use forge_key.Ota.Rounds.{Fits, download_complete}
use forge_key.Ota.Apply.{
  World, refused, restarted, Outcome, status_code, is_200, content_length, image_refusal, finish,
  run_download, fetch, apply,
}

pub Progress-cases :
    (p : Progress)
    → ((d : Download) × (p ≡ complete d))
      ⊎ ((d : Download) × (p ≡ running d))
      ⊎ ((s : Stage) × (d : Download) × (p ≡ broken s d))
Progress-cases (running d) = inr (inl (d, refl))
Progress-cases (broken s d) = inr (inr (s, d, refl))
Progress-cases (complete d) = inl (d, refl)

-- The guards of `fetch`, each of which refuses.
past_guards :
    (a b c d : Bool) (o p q r s : Outcome)
    → o.end ≡ refused
    → p.end ≡ refused
    → q.end ≡ refused
    → r.end ≡ refused
    → (if not a then o else if not b then p else if c then q else if not d then r else s).end
      ≡ restarted
    → (a ≡ true) × (b ≡ true) × (c ≡ false) × (d ≡ true) × (s.end ≡ restarted)
past_guards a b c d o p q r s e f g h k = ground arith

module _ (tls : Mbedtls) (anchors : Anchors) (to_int : Text → ℤ) (build : Build) where
  open tls use {sha256, base64_decode}

  -- The image that was downloaded, and what it passed.
  pub record IsInstalled (w : World) (spec : Spec) : Type 0 where
    pub url : Url
    pub image : Text
    pub signature : Text
    pub splits : split_url to_int spec.url ≡ some url
    pub connected : w.connects url.host url.port ≡ true
    pub answered : is_200 (status_code to_int w.status_line) ≡ true
    pub announced : length image ≡ content_length to_int 0 w.headers
    pub not_empty : length image ≢ 0
    pub allowed : Allows to_int build spec
    pub checksum : hex_eq (to_hex (sha256 image)) spec.sha256 ≡ true
    pub decodes : base64_decode spec.signature 128 ≡ some signature
    pub trusted : IsTrusted tls anchors spec.signing_cert (sha256 image) signature
    pub flashed :
        (d : Download) × (download (length image) w.polls (started w.start_ms) ≡ complete d)
        × (d.written ≡ image)
    pub ended : w.ends ≡ true

  image_refusal-none :
      (spec : Spec) (digest : Text)
      → image_refusal tls anchors to_int build spec digest ≡ none
      → Allows to_int build spec
        × (hex_eq (to_hex digest) spec.sha256 ≡ true)
        × ((signature : Text) × (base64_decode spec.signature 128 ≡ some signature)
            × IsTrusted tls anchors spec.signing_cert digest signature)
  unfolding image_refusal
  image_refusal-none spec digest h = elim (Option-cases (policy_refusal to_int build spec)) [
    | inr (r, e) ↦ cc (rw (e, image_refusal) at h)
    | inl e ↦ elim (Bool-cases (hex_eq (to_hex digest) spec.sha256)) [
      | inr f ↦ cc (rw (e, f, image_refusal) at h)
      | inl f ↦ elim (Option-cases (base64_decode spec.signature 128)) [
        | inl g ↦ cc (rw (e, f, g, image_refusal) at h)
        | inr (signature, g) ↦
            elim (Bool-cases (signature_holds tls anchors spec.signing_cert digest signature)) [
              | inr bad ↦ cc (rw (e, f, g, bad, image_refusal) at h)
              | inl good ↦ (
                (policy_refusal_iff to_int build spec).0 e,
                f,
                (signature, g, signature_holds-IsTrusted tls anchors _ _ _ good),
              )
            ]
      ]
    ]
  ]

  finish-restarted :
      (w : World) (spec : Spec) (log : List Effect) (d : Download)
      → (finish tls anchors to_int build w spec log d).end ≡ restarted
      → (image_refusal tls anchors to_int build spec (sha256 d.hashed) ≡ none) × (w.ends ≡ true)
  unfolding finish
  finish-restarted w spec log d h =
      elim (Option-cases (image_refusal tls anchors to_int build spec (sha256 d.hashed))) [
        | inr (n, e) ↦ cc (rw (e, finish) at h)
        | inl e ↦ elim (Bool-cases w.ends) [ inl f ↦ (e, f) | inr f ↦ cc (rw (e, f, finish) at h) ]
      ]

  run_download-restarted :
      (w : World) (spec : Spec) (log : List Effect) (total : ℕ)
      → (run_download tls anchors to_int build w spec log total).end ≡ restarted
      → (d : Download) × (log' : List Effect) × (download total w.polls (started w.start_ms)
          ≡ complete d)
        × ((finish tls anchors to_int build w spec log' d).end ≡ restarted)
  unfolding run_download
  run_download-restarted w spec log total h =
      elim (Progress-cases (download total w.polls (started w.start_ms))) [
        | inl (d, e) ↦ (d, log ++ d.log, e, rw (e, run_download) at h)
        | inr (inl (d, e)) ↦ cc (rw (e, run_download) at h)
        | inr (inr (s, d, e)) ↦ cc (rw (e, run_download) at h)
      ]

  fetch-restarted :
      (w : World) (spec : Spec) (url : Url)
      → (fetch tls anchors to_int build w spec url).end ≡ restarted
      → (w.connects url.host url.port ≡ true)
        × (is_200 (status_code to_int w.status_line) ≡ true)
        × (content_length to_int 0 w.headers ≢ 0)
        × ((log : List Effect) × ((run_download tls anchors to_int build w spec log
                (content_length to_int 0 w.headers)).end
              ≡ restarted))
  unfolding fetch
  fetch-restarted w spec url h =
      let (a, b, c, d, e) =
        past_guards (w.connects url.host url.port) (is_200 (status_code to_int w.status_line))
          (content_length to_int 0 w.headers == 0) w.begins _ _ _ _ _ refl refl refl refl h in
      (a, b, ground arith, (_, e))

  -- If `apply` restarts the device, then the URL was split and connected to, the server answered 200,
  -- and the image written to the flash has just the announced length, which is not 0; the policy
  -- allows it; its SHA-256 digest matches the dispatch's; and the dispatch's signature of that digest
  -- verifies under the built-in key, or where a certificate came along, under a leaf that chains to
  -- the internal authority and may sign code. No read may yield more bytes than it was asked for.
  pub apply-IsInstalled :
      (w : World) (spec : Spec) (was_updating : Bool)
      → All Fits w.polls
      → (apply tls anchors to_int build w spec was_updating).end ≡ restarted
      → IsInstalled w spec
  unfolding apply
  apply-IsInstalled w spec was_updating fits h = elim (Option-cases (split_url to_int spec.url)) [
    | inl e ↦ cc (rw (e, apply) at h)
    | inr (url, e) ↦
        let (connected, answered, some_bytes, (log, r)) =
          fetch-restarted w spec url (rw (e, apply) at h) in
        let total = content_length to_int 0 w.headers in
        let (d, log', done, f) = run_download-restarted w spec log total r in
        let (passed, ended) = finish-restarted w spec log' d f in
        let (count, received, hashed) = download_complete total w.start_ms w.polls d fits done in
        let (allowed, checksum, (signature, decodes, trusted)) =
          image_refusal-none spec (sha256 d.hashed) passed in
        record {
          url = url;
          image = d.written;
          signature = signature;
          splits = e;
          connected = connected;
          answered = answered;
          announced = count;
          not_empty = rw count some_bytes;
          allowed = allowed;
          checksum = rw (← hashed) checksum;
          decodes = decodes;
          trusted = rw (← hashed) trusted;
          flashed = (d, rw count done, refl);
          ended = ended;
        }
  ]
