-- ===== src/Command/Auth.antt =====
-- The two authenticators of a command: a JSON web token, and a detached signature.
use forge_key.Prelude.{
  ℕ, zero, suc, ◌+◌, ◌%◌, Bool, false, not, ◌&&◌, ◌||◌, Option, none, some, [], ◌∷◌, ◌++◌, ltb,
  ◌==◌, if◌then◌else◌, length, take, drop, map, Text, codes, is_empty, text_eq, index_of, to_lower,
}
use forge_key.Json.{Value, str, num, negative, Document, text_or_empty}

-- The libraries that the validation calls: base64 and elliptic curves of mbedtls, the JSON parser,
-- and the C library's time functions. `base64_decode` is given the output's capacity, and
-- `ecdsa_verify` a key, the signed bytes (it hashes them) and the two halves of a signature.
pub record Libraries : Type 1 where
  pub Key : Type 0
  pub Tm : Type 0
  pub base64_decode : Text → ℕ → Option Text
  pub parse_ec_key : Text → Option Key
  pub ecdsa_verify : Key → Text → Text → Text → Bool
  pub deserialize : Text → Option Document
  pub strtol : Text → Value × Text  -- the number, and the unread rest
  pub strptime : Text → Option (Tm × Text)
  pub mktime : Tm → Value

-- The error codes of a rejected command.
pub data Error : Type 0 where
  missing_envelope_field missing_authenticator envelope_field_too_long invalid_timestamp : Error
  expired clock_invalid issued_in_future replay_detected : Error
  malformed_jwt jwt_claim_mismatch wrong_device invalid_signature invalid_command : Error

-- What the device contributes: its clock, its address, and the key it trusts.
pub record Device : Type 0 where
  pub epoch_now : ℕ
  pub clock_valid : Bool
  pub mac : Text
  pub credential_key_pem : Text
  pub built_in_key_pem : Text

-- mac.replace(":", ""), mac.replace("-", ""), mac.toLowerCase()
unfoldable pub normalize_mac : Text → Text
normalize_mac [] = []
normalize_mac (c ∷ cs) =
    let rest = normalize_mac cs in if c == b':' || c == b'-' then rest else to_lower c ∷ rest

abbrev pub url_byte : ℕ → ℕ
url_byte c = if c == b'-' then b'+' else if c == b'_' then b'/' else c

-- while (normalized.length() % 4) normalized += '='. Three rounds are enough.
unfoldable pub pad : ℕ → Text → Text
pad zero t = t
pad (suc rounds) t =
    let padded = pad rounds (t ++ b'=' ∷ []) in if length t % 4 == 0 then t else padded

unfoldable pub active_command_key : Device → Text
active_command_key d =
    if not (is_empty d.credential_key_pem) then d.credential_key_pem else d.built_in_key_pem

-- A positive `long` as a time.
abbrev pub positive : Value → Option ℕ
positive (num zero) = none
positive (num (suc n)) = some (suc n)
positive _ = none

-- The payload, the signature, and the signed part of a token: between its first two dots, behind
-- the second, and before the second.
unfoldable pub split_jwt : Text → Option (Text × Text × Text)
split_jwt jwt = elim (index_of b'.' jwt) [
  | none ↦ none
  | some first ↦ elim (index_of b'.' (drop (suc first) jwt)) [
    | none ↦ none
    | some gap ↦
        if first == 0 || gap == 0
        then none
        else some (
          take gap (drop (suc first) jwt),
          drop (suc (suc first + gap)) jwt,
          take (suc first + gap) jwt,
        )
  ]
]

-- The fields that both authenticators bind.
abbrev pub field : Text → Document → Text
field name doc = text_or_empty (doc name)

-- field | "", and the second name where the first is empty
abbrev pub claim_or : Text → Text → Document → Text
claim_or name fallback claims =
    let first = field name claims in if is_empty first then field fallback claims else first

unfoldable pub canonical_signing_input : Document → Text
canonical_signing_input doc =
    field (codes "cmd") doc
    ++ b'\n'
      ∷ (field (codes "command_id") doc
          ++ b'\n'
            ∷ (field (codes "issued_at") doc
                ++ b'\n'
                  ∷ (field (codes "expires_at") doc
                      ++ b'\n' ∷ (field (codes "nonce") doc ++ b'\n' ∷ field (codes "actor") doc))))

unfoldable pub claims_match : Document → Document → Bool
claims_match claims doc =
    let actor = claim_or (codes "actor") (codes "sub") claims in
    text_eq (field (codes "cmd") claims) (field (codes "cmd") doc)
    && text_eq (claim_or (codes "command_id") (codes "jti") claims) (field (codes "command_id") doc)
    && text_eq (field (codes "nonce") claims) (field (codes "nonce") doc)
    && (is_empty actor || text_eq actor (field (codes "actor") doc))

unfoldable pub claims_name_device : Device → Document → Bool
unfolding normalize_mac
claims_name_device d claims =
    let mac = claim_or (codes "mac") (codes "device") claims in
    is_empty mac || text_eq (normalize_mac mac) (normalize_mac d.mac)

module _ (lib : Libraries) where
  unfoldable pub decode_base64_url : Text → ℕ → Option Text
  unfolding pad
  decode_base64_url input capacity = lib.base64_decode (pad 3 (map url_byte input)) capacity

  unfoldable pub verify_es256_raw_signature : Device → Text → Text → Bool
  unfolding active_command_key
  verify_es256_raw_signature d input signature =
      if not (length signature == 64) || is_empty (active_command_key d)
      then false
      else elim (lib.parse_ec_key (active_command_key d)) [
        | none ↦ false
        | some key ↦ lib.ecdsa_verify key input (take 32 signature) (drop 32 signature)
      ]

  -- A number, a text of digits, or an ISO 8601 time in UTC; only positive times count.
  unfoldable pub parse_epoch : Value → Option ℕ
  parse_epoch (num n) = positive (num n)
  parse_epoch (negative n) = none
  parse_epoch (str []) = none
  parse_epoch (str (c ∷ cs)) =
      let (numeric, rest) = lib.strtol (c ∷ cs) in
      let as_time : Option ℕ = elim (lib.strptime (c ∷ cs)) [
        | none ↦ none
        | some (tm, end) ↦ if is_empty end then positive (lib.mktime tm) else none
      ] in
      if is_empty rest
      then elim (positive numeric) [ none ↦ as_time | some n ↦ some n ]
      else as_time
  parse_epoch _ = none

  -- The expiry claim, if the token has one.
  unfoldable pub expiry_error : Device → Bool → Document → Option Error
  expiry_error d challenge_flow claims = elim (parse_epoch (claims (codes "exp"))) [
    | none ↦ none
    | some exp ↦
        if not d.clock_valid && not challenge_flow
        then some clock_invalid
        else if d.clock_valid && ltb exp d.epoch_now
        then some expired
        else none
  ]

  -- `none` where the signature is good.
  unfoldable pub signature_error : Device → Text → Text → Option Error
  signature_error d encoded input = elim (decode_base64_url encoded 80) [
    | none ↦ some invalid_signature
    | some signature ↦
        if verify_es256_raw_signature d input signature then none else some invalid_signature
  ]

  -- The checks on the claims, in the code's order, and then the signature.
  unfoldable pub claims_error : Device → Document → Bool → Document → Text → Text → Option Error
  claims_error d doc challenge_flow claims encoded input =
      if not (claims_match claims doc)
      then some jwt_claim_mismatch
      else if not (claims_name_device d claims)
      then some wrong_device
      else elim (expiry_error d challenge_flow claims) [
        | some e ↦ some e
        | none ↦ signature_error d encoded input
      ]

  unfoldable pub jwt_error : Device → Document → Text → Bool → Option Error
  jwt_error d doc token challenge_flow = elim (split_jwt token) [
    | none ↦ some malformed_jwt
    | some (payload, signature, input) ↦ elim (decode_base64_url payload 767) [
      | none ↦ some malformed_jwt
      | some bytes ↦ elim (lib.deserialize bytes) [
        | none ↦ some malformed_jwt
        | some claims ↦ claims_error d doc challenge_flow claims signature input
      ]
    ]
  ]

  -- `validateDetachedSignature`
  unfoldable pub detached_error : Device → Document → Text → Option Error
  detached_error d doc signature = signature_error d signature (canonical_signing_input doc)
