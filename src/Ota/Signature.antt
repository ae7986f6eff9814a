-- ===== src/Ota/Signature.antt =====
-- Firmware signatures (src/security/firmware_verify.cpp).
use forge_key.Prelude.{
  ℕ, ◌==◌, Bool, true, false, not, ◌&&◌, ◌||◌, Option, none, some, if◌then◌else◌, length, Text,
  is_empty, ◌≡◌, arith, Bool-cases, Option-cases, ◌⊎◌, inl, inr,
}

-- What mbedtls offers: its hash, base64 with the capacity of the output, keys and certificates.
-- `crt_verify leaf root` is the whole chain check, validity times included.
pub record Mbedtls : Type 1 where
  pub Key : Type 0
  pub Cert : Type 0
  pub sha256 : Text → Text
  pub base64_decode : Text → ℕ → Option Text
  pub parse_public_key : Text → Option Key
  pub pk_verify : Key → Text → Text → Bool
  pub crt_parse : Text → Option Cert
  pub crt_verify : Cert → Cert → Bool
  pub has_code_signing : Cert → Bool
  pub crt_key : Cert → Key

-- kFirmwarePubKeyPem and kForgekeyInternalCaPem
pub record Anchors : Type 0 where
  pub firmware_key_pem : Text
  pub internal_ca_pem : Text

module _ (tls : Mbedtls) (anchors : Anchors) where
  open tls use {
    Key, Cert, parse_public_key, pk_verify, crt_parse, crt_verify, has_code_signing, crt_key,
  }

  unfoldable pub verify_signature : Text → Text → Bool
  verify_signature digest signature =
      if not (length digest == 32) || is_empty signature
      then false
      else elim (parse_public_key anchors.firmware_key_pem) [
        | none ↦ false
        | some key ↦ pk_verify key digest signature
      ]

  unfoldable pub leaf_accepts : Cert → Cert → Text → Text → Bool
  leaf_accepts root leaf digest signature =
      crt_verify leaf root && has_code_signing leaf && pk_verify (crt_key leaf) digest signature

  unfoldable pub verify_signature_chained : Text → Text → Text → Bool
  unfolding leaf_accepts
  verify_signature_chained digest signature leaf_pem =
      if not (length digest == 32) || is_empty signature || is_empty leaf_pem
      then false
      else elim (crt_parse anchors.internal_ca_pem) [
        | none ↦ false
        | some root ↦ elim (crt_parse leaf_pem) [
          | none ↦ false
          | some leaf ↦ leaf_accepts root leaf digest signature
        ]
      ]

  -- The choice between the two in `apply`, by the dispatch's certificate.
  unfoldable pub signature_holds : Text → Text → Text → Bool
  signature_holds leaf_pem digest signature =
      if not (is_empty leaf_pem)
      then verify_signature_chained digest signature leaf_pem
      else verify_signature digest signature

  -- The built-in key has signed the digest, if the dispatch brings no certificate; and else a leaf
  -- that the internal authority issued for code signing.
  abbrev pub IsTrusted : Text → Text → Text → Type 0
  IsTrusted leaf_pem digest signature =
      ((is_empty leaf_pem ≡ true)
        × (key : Key) × (parse_public_key anchors.firmware_key_pem ≡ some key)
        × (pk_verify key digest signature ≡ true))
      ⊎ ((root : Cert) × (leaf : Cert) × (crt_parse anchors.internal_ca_pem ≡ some root)
          × (crt_parse leaf_pem ≡ some leaf)
          × (crt_verify leaf root ≡ true)
          × (has_code_signing leaf ≡ true)
          × (pk_verify (crt_key leaf) digest signature ≡ true))

  three_true : (a b c : Bool) → (a && b && c) ≡ true → (a ≡ true) × (b ≡ true) × (c ≡ true)
  three_true a b c h = ground arith

  built_in_sound :
      (digest signature : Text)
      → verify_signature digest signature ≡ true
      → (key : Key) × (parse_public_key anchors.firmware_key_pem ≡ some key)
        × (pk_verify key digest signature ≡ true)
  unfolding verify_signature
  built_in_sound digest signature h =
      elim (Bool-cases (not (length digest == 32) || is_empty signature)) [
        | inl bad ↦ cc (simp bad at h)
        | inr good ↦ elim (Option-cases (parse_public_key anchors.firmware_key_pem)) [
          | inl e ↦ cc (simp (good, e) at h)
          | inr (key, e) ↦ (key, e, simp (good, e) at h)
        ]
      ]

  chained_sound :
      (digest signature leaf_pem : Text)
      → verify_signature_chained digest signature leaf_pem ≡ true
      → (root : Cert) × (leaf : Cert) × (crt_parse anchors.internal_ca_pem ≡ some root)
        × (crt_parse leaf_pem ≡ some leaf)
        × (leaf_accepts root leaf digest signature ≡ true)
  unfolding verify_signature_chained
  chained_sound digest signature leaf_pem h =
      elim (Bool-cases (not (length digest == 32) || is_empty signature || is_empty leaf_pem)) [
        | inl bad ↦ cc (simp bad at h)
        | inr good ↦ elim (Option-cases (crt_parse anchors.internal_ca_pem)) [
          | inl e ↦ cc (simp (good, e) at h)
          | inr (root, e) ↦ elim (Option-cases (crt_parse leaf_pem)) [
            | inl f ↦ cc (simp (good, e, f) at h)
            | inr (leaf, f) ↦ (root, leaf, e, f, simp (good, e, f) at h)
          ]
        ]
      ]

  pub signature_holds-IsTrusted :
      (leaf_pem digest signature : Text)
      → signature_holds leaf_pem digest signature ≡ true
      → IsTrusted leaf_pem digest signature
  unfolding signature_holds leaf_accepts
  signature_holds-IsTrusted leaf_pem digest signature h = elim (Bool-cases (is_empty leaf_pem)) [
    | inl e ↦
        let (key, parsed, signed) = built_in_sound digest signature (simp e at h) in
        inl (e, key, parsed, signed)
    | inr e ↦
        let (root, leaf, parsed, read, accepted) =
          chained_sound digest signature leaf_pem (simp e at h) in
        let (chain, usage, signed) =
          three_true (crt_verify leaf root) (has_code_signing leaf)
            (pk_verify (crt_key leaf) digest signature) accepted in
        inr (root, leaf, parsed, read, chain, usage, signed)
  ]
