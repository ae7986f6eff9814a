-- ===== src/Ota/Allowed.antt =====
-- The update policy, stated by what it demands of a dispatch.
use forge_key.Prelude.{
  Bool, true, false, not, ◌&&◌, Option, none, some, List, [], ◌∷◌, ℤ, if◌then◌else◌, Text, is_empty,
  text_eq, ◌≡◌, ◌≢◌, refl, arith, ◌⊎◌, ◌↔◌, inl,
}
use forge_key.Ota.Strings.{is_wildcard}
use forge_key.Ota.Version.{
  Order, less, same, greater, compare_version_ends, compare_numbers, numbers,
}
use forge_key.Ota.Rollout.{matches_rollout_cohort}
use forge_key.Ota.Spec.{Spec}
use forge_key.Ota.Policy.{
  Build, below_minimum_version, above_maximum_version, hardware_target_mismatch,
  capability_target_mismatch, rollout_cohort_mismatch, is_less, is_greater, is_yes,
  matches_capability_target, policy_refusal, any_active,
}

-- Some active capability has the target's name.
abbrev HasActive : Text → List (Bool × Text) → Type 0
HasActive target [] = ⊥
HasActive target ((active, id) ∷ cs) =
    ((active ≡ true) × (text_eq target id ≡ true)) ⊎ HasActive target cs

-- What the policy of a dispatch demands, for the versions in terms of their numbers.
pub record Allows (to_int : Text → ℤ) (b : Build) (spec : Spec) : Type 0 where
  pub minimum :
      (is_empty spec.minimum_version ≡ true)
      ⊎ (compare_numbers (numbers b.firmware_version) (numbers spec.minimum_version) ≢ less)
  pub maximum :
      (is_empty spec.maximum_version ≡ true)
      ⊎ (compare_numbers (numbers b.firmware_version) (numbers spec.maximum_version) ≢ greater)
  pub hardware :
      (is_wildcard spec.hardware_target ≡ true)
      ⊎ (text_eq spec.hardware_target b.build_target ≡ true)
  pub capability :
      (is_wildcard spec.capability_target ≡ true)
      ⊎ (text_eq spec.capability_target b.sensor_kind ≡ true)
      ⊎ HasActive spec.capability_target b.capabilities
  pub cohort : matches_rollout_cohort to_int b.mac spec.rollout_cohort ≡ some true

any_active_iff :
    (target : Text) (cs : List (Bool × Text)) → (any_active target cs ≡ true) ↔ HasActive target cs
unfolding any_active
any_active_iff target [] = ground arith
any_active_iff target ((active, id) ∷ cs) = ground (arith, any_active_iff target cs)

capability_iff :
    (b : Build) (target : Text)
    → (matches_capability_target b target ≡ true) ↔ (
        (is_wildcard target ≡ true)
        ⊎ (text_eq target b.sensor_kind ≡ true)
        ⊎ HasActive target b.capabilities)
unfolding matches_capability_target
capability_iff b target = ground (arith, any_active_iff target b.capabilities)

low_iff :
    (empty : Bool) (o : Order)
    → ((not empty && is_less (some o)) ≡ false) ↔ ((empty ≡ true) ⊎ (o ≢ less))
low_iff true o = (λ h. inl refl, λ h. refl)
low_iff false less = ground arith
low_iff false same = ground arith
low_iff false greater = ground arith

high_iff :
    (empty : Bool) (o : Order)
    → ((not empty && is_greater (some o)) ≡ false) ↔ ((empty ≡ true) ⊎ (o ≢ greater))
high_iff true o = (λ h. inl refl, λ h. refl)
high_iff false less = ground arith
high_iff false same = ground arith
high_iff false greater = ground arith

neither_iff : (p q : Bool) → ((not p && not q) ≡ false) ↔ ((p ≡ true) ⊎ (q ≡ true))
neither_iff p q = ground arith

yes_iff : (o : Option Bool) → (is_yes o ≡ true) ↔ (o ≡ some true)
yes_iff none = ground arith
yes_iff (some true) = ground arith
yes_iff (some false) = ground arith

-- The five guards in a row.
no_refusal_iff :
    (lo hi hw cap co : Bool)
    → ((if lo
          then some below_minimum_version
          else if hi
          then some above_maximum_version
          else if hw
          then some hardware_target_mismatch
          else if not cap
          then some capability_target_mismatch
          else if not co
          then some rollout_cohort_mismatch
          else none)
        ≡ none)
      ↔ ((lo ≡ false) × (hi ≡ false) × (hw ≡ false) × (cap ≡ true) × (co ≡ true))
no_refusal_iff lo hi hw cap co = ground arith

-- `isPolicyAllowed` accepts a dispatch exactly if the firmware's version is not below the minimum
-- and not above the maximum, where these are given, by the order of their numbers; the hardware
-- target is a wildcard or the build's; the capability target is a wildcard, the sensor kind or the
-- name of an active capability; and the device belongs to the rollout cohort.
pub policy_refusal_iff :
    (to_int : Text → ℤ) (b : Build) (spec : Spec)
    → (policy_refusal to_int b spec ≡ none) ↔ Allows to_int b spec
unfolding policy_refusal
policy_refusal_iff to_int b spec =
    let lo = low_iff (is_empty spec.minimum_version) _ in
    let hi = high_iff (is_empty spec.maximum_version) _ in
    let hw =
      neither_iff (is_wildcard spec.hardware_target)
        (text_eq spec.hardware_target b.build_target) in
    let cap = capability_iff b spec.capability_target in
    let co = yes_iff (matches_rollout_cohort to_int b.mac spec.rollout_cohort) in
    let all = no_refusal_iff _ _ _ _ _ in
    rw (compare_version_ends, compare_version_ends)
      (
        λ h.
            let (l, g, w, c, r) = all.0 h in
            record {
              minimum = lo.0 l;
              maximum = hi.0 g;
              hardware = hw.0 w;
              capability = cap.0 c;
              cohort = co.0 r;
            },
        λ a.
            all.1
              (lo.1 a.minimum, hi.1 a.maximum, hw.1 a.hardware, cap.1 a.capability, co.1 a.cohort),
      )
