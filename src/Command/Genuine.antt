-- ===== src/Command/Genuine.antt =====
-- An authenticator that the validation takes, and nothing less: the converse of the soundness.
use forge_key.Prelude.{
  ◌≡◌, ◌≤◌, ℕ, refl, subst, Bool, true, false, not, ◌||◌, ◌==◌, text_eq, text_eq_self, none, some,
  arith, length, Text, codes, is_empty, ◌⊎◌, inl, inr, Bool-cases, Option-cases,
}
use forge_key.Json.{Document}
use forge_key.Command.Auth.{
  Libraries, Device, field, jwt_error, detached_error, signature_error, decode_base64_url,
  verify_es256_raw_signature, active_command_key, claim_or, claims_error, claims_match,
  claims_name_device, expiry_error, canonical_signing_input, parse_epoch,
}
use forge_key.Command.Validate.{authenticator_error, uses_server_challenge_flow}
use forge_key.Command.Authentic.{
  RepeatsFields, IsSigned, IsBound, jwt_error-IsBound, signature_error-IsSigned,
}

same-text_eq : (a b : Text) → a ≡ b → text_eq a b ≡ true
same-text_eq a b e = subst (λ t. text_eq a t ≡ true) e (text_eq_self a)

any_true : (a b : Bool) → b ≡ true → (a || b) ≡ true
any_true true b h = refl
any_true false b h = h

RepeatsFields-claims_match :
    (claims doc : Document) → RepeatsFields claims doc → claims_match claims doc ≡ true
unfolding claims_match
RepeatsFields-claims_match claims doc r =
    let actor = claim_or (codes "actor") (codes "sub") claims in
    let actor_ok : (is_empty actor || text_eq actor (field (codes "actor") doc)) ≡ true =
      elim r.same_actor [
        | inl e ↦ rw e refl
        | inr e ↦ any_true (is_empty actor) _ (same-text_eq actor _ e)
      ] in
    rw
      (
        same-text_eq _ _ r.same_cmd,
        same-text_eq _ _ r.same_id,
        same-text_eq _ _ r.same_nonce,
        claims_match,
      )
      actor_ok

module _ (lib : Libraries) where
  open lib use {Key, parse_ec_key, ecdsa_verify, deserialize}

  -- A token without an expiry, or with one that the clock has not passed; a device without a valid
  -- clock takes an expiry only as part of a challenge.
  pub record IsCurrent (d : Device) (challenge : Bool) (claims : Document) : Type 0 where
    pub clock_or_challenge :
        (expires : ℕ)
        → parse_epoch lib (claims (codes "exp")) ≡ some expires
        → (d.clock_valid ≡ true) ⊎ (challenge ≡ true)
    pub not_expired :
        (expires : ℕ)
        → parse_epoch lib (claims (codes "exp")) ≡ some expires
        → d.clock_valid ≡ true
        → d.epoch_now ≤ expires

  expiry_error-IsCurrent :
      (d : Device) (challenge : Bool) (claims : Document)
      → expiry_error lib d challenge claims ≡ none
      → IsCurrent d challenge claims
  unfolding expiry_error
  expiry_error-IsCurrent d challenge claims h = record {
    clock_or_challenge = λ expires e. let h' = rw (e, expiry_error) at h in ground arith;
    not_expired = λ expires e valid. let h' = rw (e, expiry_error) at h in ground arith;
  }

  IsCurrent-expiry_error :
      (d : Device) (challenge : Bool) (claims : Document)
      → IsCurrent d challenge claims
      → expiry_error lib d challenge claims ≡ none
  unfolding expiry_error
  IsCurrent-expiry_error d challenge claims c =
      elim (Option-cases (parse_epoch lib (claims (codes "exp")))) [
        | inl e ↦ rw (e, expiry_error) refl
        | inr (expires, e) ↦
            let clock = c.clock_or_challenge expires e in
            let time = c.not_expired expires e in rw (e, expiry_error) (ground arith)
      ]

  IsSigned-signature_error :
      (d : Device) (encoded input : Text)
      → is_empty (active_command_key d) ≡ false
      → IsSigned lib d input encoded
      → signature_error lib d encoded input ≡ none
  unfolding signature_error verify_es256_raw_signature
  IsSigned-signature_error d encoded input given (signature, key, decoded, long, parsed, verified) =
      let whole : (length signature == 64) ≡ true = ground arith in
      rw (decoded, whole, given, parsed, verified, signature_error) refl

  no_key :
      (d : Device) (input signature : Text)
      → is_empty (active_command_key d) ≡ true
      → verify_es256_raw_signature lib d input signature ≡ false
  unfolding verify_es256_raw_signature
  no_key d input signature e = rw (any_true (not (length signature == 64)) _ e) refl

  key-given :
      (d : Device) (encoded input : Text)
      → signature_error lib d encoded input ≡ none
      → is_empty (active_command_key d) ≡ false
  unfolding signature_error verify_es256_raw_signature
  key-given d encoded input h = elim (Bool-cases (is_empty (active_command_key d))) [
    | inr e ↦ e
    | inl e ↦ elim (Option-cases (decode_base64_url lib encoded 80)) [
      | inl f ↦ cc (rw (f, signature_error) at h)
      | inr (signature, f) ↦ cc (rw (f, no_key d input signature e, signature_error) at h)
    ]
  ]

  -- The device has a key; and the command comes with a token that binds it and has not expired, or
  -- without a token and with a signature of its six envelope fields.
  abbrev pub IsGenuine : Device → Document → Type 0
  IsGenuine d doc =
      (is_empty (active_command_key d) ≡ false)
      × (((is_empty (field (codes "jwt") doc) ≡ false)
            × (b : IsBound lib d doc (field (codes "jwt") doc)) × IsCurrent d
                (uses_server_challenge_flow doc) b.claims)
          ⊎ ((is_empty (field (codes "jwt") doc) ≡ true)
              × IsSigned lib d (canonical_signing_input doc) (field (codes "signature") doc)))

  claims_error-expiry :
      (d : Device) (doc : Document) (challenge : Bool) (claims : Document) (encoded input : Text)
      → claims_error lib d doc challenge claims encoded input ≡ none
      → (expiry_error lib d challenge claims ≡ none) × (signature_error lib d encoded input ≡ none)
  unfolding claims_error
  claims_error-expiry d doc challenge claims encoded input h =
      elim (Bool-cases (claims_match claims doc)) [
        | inr no_match ↦ cc (simp no_match at h)
        | inl match ↦ elim (Bool-cases (claims_name_device d claims)) [
          | inr no_device ↦ cc (simp (match, no_device) at h)
          | inl device ↦ elim (Option-cases (expiry_error lib d challenge claims)) [
            | inr (x, e) ↦ cc (simp (match, device, e) at h)
            | inl e ↦ (e, simp (match, device, e) at h)
          ]
        ]
      ]

  token-IsGenuine :
      (d : Device) (doc : Document)
      → is_empty (field (codes "jwt") doc) ≡ false
      → jwt_error lib d doc (field (codes "jwt") doc) (uses_server_challenge_flow doc) ≡ none
      → IsGenuine d doc
  unfolding jwt_error
  token-IsGenuine d doc token h =
      let b = jwt_error-IsBound lib d doc _ _ h in
      let (current, signed) =
        claims_error-expiry d doc (uses_server_challenge_flow doc) b.claims b.encoded b.input
          (rw (b.splits, b.decodes, b.parses, jwt_error) at h) in
      (
        key-given d b.encoded b.input signed,
        inl (token, b, expiry_error-IsCurrent d _ b.claims current),
      )

  pub authenticator_error-IsGenuine :
      (d : Device) (doc : Document) → authenticator_error lib d doc ≡ none → IsGenuine d doc
  unfolding authenticator_error detached_error
  authenticator_error-IsGenuine d doc h = elim (Bool-cases (is_empty (field (codes "jwt") doc))) [
    | inr token ↦ token-IsGenuine d doc token (simp token at h)
    | inl detached ↦
        let signed = simp detached at h in
        (key-given d _ _ signed, inr (detached, signature_error-IsSigned lib d _ _ signed))
  ]

  pub IsGenuine-authenticator_error :
      (d : Device) (doc : Document) → IsGenuine d doc → authenticator_error lib d doc ≡ none
  unfolding authenticator_error detached_error jwt_error claims_error
  IsGenuine-authenticator_error d doc (given, inl (token, b, current)) =
      rw
        (
          token,
          b.splits,
          b.decodes,
          b.parses,
          RepeatsFields-claims_match b.claims doc b.same_fields,
          b.names_device,
          IsCurrent-expiry_error d (uses_server_challenge_flow doc) b.claims current,
          authenticator_error,
          jwt_error,
          claims_error,
        )
        (IsSigned-signature_error d b.encoded b.input given b.signed)
  IsGenuine-authenticator_error d doc (given, inr (detached, signed)) =
      rw (detached, authenticator_error, detached_error)
        (IsSigned-signature_error d _ _ given signed)
