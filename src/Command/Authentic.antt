-- ===== src/Command/Authentic.antt =====
-- What an authenticated command carries: a signature of the trusted key over its own envelope.
use forge_key.Prelude.{
  ◌≡◌, refl, Bool, true, false, not, ◌&&◌, text_eq, text_eq-eq, ◌||◌, ◌==◌, none, some, arith,
  length, take, drop, Text, codes, is_empty, ◌⊎◌, inl, inr, Bool-cases, Option-cases,
}
use forge_key.Json.{Document}
use forge_key.Command.Auth.{
  Libraries, Device, field, jwt_error, detached_error, signature_error, decode_base64_url,
  verify_es256_raw_signature, active_command_key, split_jwt, claim_or, claims_error, claims_match,
  claims_name_device, expiry_error, canonical_signing_input,
}
use forge_key.Command.Validate.{authenticator_error}

-- The claims repeat the command's verb, id and nonce, and its actor if they name one.
pub record RepeatsFields (claims doc : Document) : Type 0 where
  pub same_cmd : field (codes "cmd") claims ≡ field (codes "cmd") doc
  pub same_id : claim_or (codes "command_id") (codes "jti") claims ≡ field (codes "command_id") doc
  pub same_nonce : field (codes "nonce") claims ≡ field (codes "nonce") doc
  pub same_actor :
      (is_empty (claim_or (codes "actor") (codes "sub") claims) ≡ true)
      ⊎ (claim_or (codes "actor") (codes "sub") claims ≡ field (codes "actor") doc)

four_true :
    (a b c d : Bool) → (a && b && c && d) ≡ true → (a ≡ true) × (b ≡ true) × (c ≡ true) × (d ≡ true)
four_true a b c d h = ground arith

either_true : (a b : Bool) → (a || b) ≡ true → (a ≡ true) ⊎ (b ≡ true)
either_true true b h = inl refl
either_true false b h = inr h

claims_match-RepeatsFields :
    (claims doc : Document) → claims_match claims doc ≡ true → RepeatsFields claims doc
unfolding claims_match
claims_match-RepeatsFields claims doc h =
    let id = claim_or (codes "command_id") (codes "jti") claims in
    let actor = claim_or (codes "actor") (codes "sub") claims in
    let (c, i, n, a) =
      four_true (text_eq (field (codes "cmd") claims) (field (codes "cmd") doc))
        (text_eq id (field (codes "command_id") doc))
        (text_eq (field (codes "nonce") claims) (field (codes "nonce") doc))
        (is_empty actor || text_eq actor (field (codes "actor") doc)) h in
    record {
      same_cmd = text_eq-eq _ _ c;
      same_id = text_eq-eq _ _ i;
      same_nonce = text_eq-eq _ _ n;
      same_actor =
          elim (either_true (is_empty actor) (text_eq actor (field (codes "actor") doc)) a) [
            | inl e ↦ inl e
            | inr e ↦ inr (text_eq-eq _ _ e)
          ];
    }

module _ (lib : Libraries) where
  open lib use {Key, parse_ec_key, ecdsa_verify, deserialize}

  -- The device's key has signed `input`, with the 64 bytes that `encoded` stands for.
  abbrev pub IsSigned : Device → Text → Text → Type 0
  IsSigned d input encoded =
      (signature : Text) × (key : Key) × (decode_base64_url lib encoded 80 ≡ some signature)
      × (length signature ≡ 64)
      × (parse_ec_key (active_command_key d) ≡ some key)
      × (ecdsa_verify key input (take 32 signature) (drop 32 signature) ≡ true)

  pub verify_sound :
      (d : Device) (input signature : Text)
      → verify_es256_raw_signature lib d input signature ≡ true
      → (key : Key) × (length signature ≡ 64)
        × (parse_ec_key (active_command_key d) ≡ some key)
        × (ecdsa_verify key input (take 32 signature) (drop 32 signature) ≡ true)
  unfolding verify_es256_raw_signature
  verify_sound d input signature h =
      elim (Bool-cases (not (length signature == 64) || is_empty (active_command_key d))) [
        | inl bad ↦ cc (simp bad at h)
        | inr good ↦ elim (Option-cases (parse_ec_key (active_command_key d))) [
          | inl e ↦ cc (simp (good, e) at h)
          | inr (key, e) ↦ (key, ground arith, e, simp (good, e) at h)
        ]
      ]

  pub signature_error-IsSigned :
      (d : Device) (encoded input : Text)
      → signature_error lib d encoded input ≡ none
      → IsSigned d input encoded
  unfolding signature_error
  signature_error-IsSigned d encoded input h =
      elim (Option-cases (decode_base64_url lib encoded 80)) [
        | inl e ↦ cc (rw (e, signature_error) at h)
        | inr (signature, e) ↦
            elim (Bool-cases (verify_es256_raw_signature lib d input signature)) [
              | inr bad ↦ cc (rw (e, bad, signature_error) at h)
              | inl good ↦
                  let (key, long, parsed, verified) = verify_sound d input signature good in
                  (signature, key, e, long, parsed, verified)
            ]
      ]

  -- A token that binds a command: its signed part carries claims that repeat the command's verb,
  -- id and nonce, and that name no other actor and no other device.
  pub record IsBound (d : Device) (doc : Document) (token : Text) : Type 0 where
    pub payload : Text
    pub encoded : Text
    pub input : Text
    pub bytes : Text
    pub claims : Document
    pub splits : split_jwt token ≡ some (payload, encoded, input)
    pub decodes : decode_base64_url lib payload 767 ≡ some bytes
    pub parses : deserialize bytes ≡ some claims
    pub same_fields : RepeatsFields claims doc
    pub names_device : claims_name_device d claims ≡ true
    pub signed : IsSigned d input encoded

  claims_error-none :
      (d : Device) (doc : Document) (challenge : Bool) (claims : Document) (encoded input : Text)
      → claims_error lib d doc challenge claims encoded input ≡ none
      → (claims_match claims doc ≡ true)
        × (claims_name_device d claims ≡ true)
        × (signature_error lib d encoded input ≡ none)
  unfolding claims_error
  claims_error-none d doc challenge claims encoded input h =
      elim (Bool-cases (claims_match claims doc)) [
        | inr no_match ↦ cc (simp no_match at h)
        | inl match ↦ elim (Bool-cases (claims_name_device d claims)) [
          | inr no_device ↦ cc (simp (match, no_device) at h)
          | inl device ↦ elim (Option-cases (expiry_error lib d challenge claims)) [
            | inr (x, e) ↦ cc (simp (match, device, e) at h)
            | inl e ↦ (match, device, simp (match, device, e) at h)
          ]
        ]
      ]

  pub jwt_error-IsBound :
      (d : Device) (doc : Document) (token : Text) (challenge : Bool)
      → jwt_error lib d doc token challenge ≡ none
      → IsBound d doc token
  unfolding jwt_error
  jwt_error-IsBound d doc token challenge h = elim (Option-cases (split_jwt token)) [
    | inl e ↦ cc (rw (e, jwt_error) at h)
    | inr ((payload, encoded, input), e) ↦ elim (Option-cases (decode_base64_url lib payload 767)) [
      | inl f ↦ cc (rw (e, f, jwt_error) at h)
      | inr (bytes, f) ↦ elim (Option-cases (deserialize bytes)) [
        | inl g ↦ cc (rw (e, f, g, jwt_error) at h)
        | inr (claims, g) ↦
            let (m, n, s) =
              claims_error-none d doc challenge claims encoded input
                (rw (e, f, g, jwt_error) at h) in
            record {
              payload = payload;
              encoded = encoded;
              input = input;
              bytes = bytes;
              claims = claims;
              splits = e;
              decodes = f;
              parses = g;
              same_fields = claims_match-RepeatsFields claims doc m;
              names_device = n;
              signed = signature_error-IsSigned d encoded input s;
            }
      ]
    ]
  ]

  -- An authenticated command carries a signature that the trusted key verifies: a token bound to
  -- the command, if it has one, and else a signature of the six envelope fields.
  pub authenticator_error_sound :
      (d : Device) (doc : Document)
      → authenticator_error lib d doc ≡ none
      → IsBound d doc (field (codes "jwt") doc)
        ⊎ ((is_empty (field (codes "jwt") doc) ≡ true)
            × IsSigned d (canonical_signing_input doc) (field (codes "signature") doc))
  unfolding authenticator_error detached_error
  authenticator_error_sound d doc h = elim (Bool-cases (is_empty (field (codes "jwt") doc))) [
    | inl detached ↦ inr (detached, signature_error-IsSigned d _ _ (simp detached at h))
    | inr token ↦ inl (jwt_error-IsBound d doc _ _ (simp token at h))
  ]
