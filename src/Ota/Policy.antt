-- ===== src/Ota/Policy.antt =====
-- `isPolicyAllowed` and `matchesCapabilityTarget`.
use forge_key.Prelude.{
  Bool, true, false, not, ◌&&◌, ◌||◌, Option, none, some, List, [], ◌∷◌, ℤ, if◌then◌else◌, Text,
  is_empty, text_eq,
}
use forge_key.Ota.Strings.{is_wildcard}
use forge_key.Ota.Version.{Order, less, greater, compare_version}
use forge_key.Ota.Rollout.{matches_rollout_cohort}
use forge_key.Ota.Spec.{Spec}

-- FORGEKEY_FIRMWARE_VERSION and the like, and the registry's capabilities with `active`.
pub record Build : Type 0 where
  pub firmware_version : Text
  pub build_target : Text
  pub sensor_kind : Text
  pub mac : Text
  pub capabilities : List (Bool × Text)

pub data Reason : Type 0 where
  below_minimum_version above_maximum_version hardware_target_mismatch : Reason
  capability_target_mismatch rollout_cohort_mismatch : Reason

-- compareVersion(a, b) < 0 and > 0
abbrev pub is_less : Option Order → Bool
is_less (some less) = true
is_less _ = false

abbrev pub is_greater : Option Order → Bool
is_greater (some greater) = true
is_greater _ = false

abbrev pub is_yes : Option Bool → Bool
is_yes (some true) = true
is_yes _ = false

-- The loop over the registry.
unfoldable pub any_active : Text → List (Bool × Text) → Bool
any_active target [] = false
any_active target ((active, id) ∷ cs) = (active && text_eq target id) || any_active target cs

unfoldable pub matches_capability_target : Build → Text → Bool
unfolding any_active
matches_capability_target b target =
    if is_wildcard target
    then true
    else if text_eq target b.sensor_kind
    then true
    else any_active target b.capabilities

-- `none` where the update is allowed.
unfoldable pub policy_refusal : (Text → ℤ) → Build → Spec → Option Reason
policy_refusal to_int b spec =
    if not (is_empty spec.minimum_version)
      && is_less (compare_version b.firmware_version spec.minimum_version)
    then some below_minimum_version
    else if not (is_empty spec.maximum_version)
        && is_greater (compare_version b.firmware_version spec.maximum_version)
    then some above_maximum_version
    else if not (is_wildcard spec.hardware_target)
        && not (text_eq spec.hardware_target b.build_target)
    then some hardware_target_mismatch
    else if not (matches_capability_target b spec.capability_target)
    then some capability_target_mismatch
    else if not (is_yes (matches_rollout_cohort to_int b.mac spec.rollout_cohort))
    then some rollout_cohort_mismatch
    else none
