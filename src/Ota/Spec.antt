-- ===== src/Ota/Spec.antt =====
-- `OtaUpdater::Spec` and `parse`: an update dispatch, flat or with a nested policy.
use forge_key.Prelude.{
  ℕ, ◌-◌, ◌%◌, Bool, true, false, not, ◌&&◌, ◌||◌, Option, none, some, [], ◌∷◌, ℤ, pos, negsuc, ltb,
  ◌==◌, if◌then◌else◌, length, map, Text, codes, is_empty, to_lower, u32,
}
use forge_key.Json.{Value, str, num, Document, is_null}
use forge_key.Ota.Version.{is_digit}

pub record Spec : Type 0 where
  pub url : Text
  pub sha256 : Text
  pub signature : Text
  pub signing_cert : Text
  pub version : Text
  pub mandatory : Bool
  pub minimum_version : Text
  pub maximum_version : Text
  pub hardware_target : Text
  pub capability_target : Text
  pub rollout_cohort : Text
  pub deadline : Text
  pub deadline_epoch : ℕ

-- What the parser calls: String(unsigned long), String::toInt, and ArduinoJson's conversions.
pub record Platform : Type 0 where
  pub print_ulong : ℕ → Text
  pub to_int : Text → ℤ
  pub as_ulong : Value → ℕ
  pub as_bool : Value → Bool

-- A member as a text: a text itself, or an `unsigned long` in decimal.
abbrev member_text : Platform → Value → Option Text
member_text p (str t) = some t
member_text p (num n) = if ltb n 4294967296 then some (p.print_ulong n) else none
member_text p _ = none

unfoldable pub first_string : Platform → Document → Document → Text → Text
first_string p primary fallback key = elim (member_text p (primary key)) [
  | some t ↦ t
  | none ↦ elim (member_text p (fallback key)) [ some t ↦ t | none ↦ [] ]
]

unfoldable pub first_bool : Platform → Document → Document → Text → Bool → Bool
first_bool p primary fallback key def =
    if not (is_null (primary key))
    then p.as_bool (primary key)
    else if not (is_null (fallback key))
    then p.as_bool (fallback key)
    else def

abbrev pub to_u32 : ℤ → ℕ
to_u32 (pos n) = u32 n
to_u32 (negsuc n) = 4294967295 - n % 4294967296

abbrev all_digits : Text → Bool
all_digits [] = true
all_digits (c ∷ cs) = is_digit c && all_digits cs

unfoldable pub parse_deadline_epoch : Platform → Text → ℕ
parse_deadline_epoch p deadline =
    if is_empty deadline then 0 else if all_digits deadline then to_u32 (p.to_int deadline) else 0

-- `deadline`, or `deadline_epoch` in decimal where that is missing.
unfoldable pub deadline_text : Platform → Document → Document → Text
unfolding first_string
deadline_text p policy doc =
    let first = first_string p policy doc (codes "deadline") in
    if not (is_empty first)
    then first
    else if not (is_null (policy (codes "deadline_epoch")))
    then p.print_ulong (p.as_ulong (policy (codes "deadline_epoch")))
    else if not (is_null (doc (codes "deadline_epoch")))
    then p.print_ulong (p.as_ulong (doc (codes "deadline_epoch")))
    else first

-- The fields, before the checks: the artefact's from the top level first, the policy's from the
-- nested policy first.
unfoldable pub read_spec : Platform → Document → Document → Spec
unfolding first_string first_bool parse_deadline_epoch deadline_text
read_spec p doc policy = record {
  url = first_string p doc policy (codes "url");
  sha256 = first_string p doc policy (codes "sha256");
  signature = first_string p doc policy (codes "signature");
  signing_cert = first_string p doc policy (codes "signing_cert");
  version = first_string p doc policy (codes "version");
  mandatory = first_bool p doc policy (codes "mandatory") false;
  minimum_version = first_string p policy doc (codes "minimum_version");
  maximum_version = first_string p policy doc (codes "maximum_version");
  hardware_target = first_string p policy doc (codes "hardware_target");
  capability_target = first_string p policy doc (codes "capability_target");
  rollout_cohort = first_string p policy doc (codes "rollout_cohort");
  deadline = deadline_text p policy doc;
  deadline_epoch = parse_deadline_epoch p (deadline_text p policy doc);
}

-- `none` where the dispatch is refused. `nested` is doc["policy"], and `none` where that is null.
unfoldable pub parse : Platform → Document → Option Document → Option Spec
unfolding read_spec
parse p doc nested =
    let spec = read_spec p doc (elim nested [ none ↦ doc | some policy ↦ policy ]) in
    if is_empty spec.url || not (length spec.sha256 == 64)
    then none
    else if is_empty spec.signature
    then none
    else some (record spec { sha256 = map to_lower spec.sha256 })
