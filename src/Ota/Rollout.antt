-- ===== src/Ota/Rollout.antt =====
-- `deviceCohortBucket`, `tokenListContains` and `matchesRolloutCohort`.
use forge_key.Prelude.{
  ℕ, zero, suc, ◌+◌, ◌*◌, ◌/◌, ◌%◌, ◌<◌, ◌≤◌, Bool, true, false, ◌||◌, Option, none, some, List, [],
  ◌∷◌, ◌++◌, ℤ, pos, negsuc, ltb, ◌==◌, if◌then◌else◌, length, take, drop, Text, codes, text_eq,
  index_of, to_lower, u32, ◌≡◌, refl, ap, arith, Bool-cases, Option-cases, inl, inr, ltb→lt, lt→ltb,
}
use forge_key.Ota.Strings.{trim, starts_with, is_wildcard}
use Prim.Native.Nat.{bit_xor}

-- The 32-bit FNV-1a hash of the address's hexadecimal digits.
unfoldable pub hash_from : ℕ → Text → ℕ
hash_from hash [] = hash
hash_from hash (c ∷ cs) =
    hash_from (if c == b':' then hash else u32 (bit_xor hash (to_lower c % 256) * 16777619)) cs

unfoldable pub device_cohort_bucket : Text → ℕ
device_cohort_bucket mac = hash_from 2166136261 mac % 100

-- snprintf(bucketName, sizeof(bucketName), "c%02u", bucket)
abbrev pub bucket_name : ℕ → Text
bucket_name bucket = b'c' ∷ (b'0' + bucket / 10) ∷ (b'0' + bucket % 10) ∷ []

-- The loop over the tokens behind `start`; `none` where the rounds run out.
unfoldable pub contains_rest : ℕ → Text → Text → Option Bool
contains_rest zero rest value = none
contains_rest (suc rounds) rest value = elim (index_of b',' rest) [
  | none ↦ some (text_eq (trim rest) value)
  | some comma ↦
      let later = contains_rest rounds (drop (suc comma) rest) value in
      if text_eq (trim (take comma rest)) value then some true else later
]

-- Each round but the last consumes a comma, so this many rounds are enough.
unfoldable pub token_list_contains : Text → Text → Option Bool
unfolding contains_rest
token_list_contains csv value = contains_rest (suc (length csv)) csv value

-- `pct` after its clamps to 0 and 100.
abbrev pub clamp_percent : ℤ → ℕ
clamp_percent (pos n) = if ltb 100 n then 100 else n
clamp_percent (negsuc n) = 0

-- `to_int` is String::toInt.
unfoldable pub matches_rollout_cohort : (Text → ℤ) → Text → Text → Option Bool
matches_rollout_cohort to_int mac cohort =
    let bucket = device_cohort_bucket mac in
    if is_wildcard cohort
    then some true
    else if text_eq cohort (bucket_name bucket)
    then some true
    else if starts_with (codes "pct:") cohort
    then some (ltb bucket (clamp_percent (to_int (drop 4 cohort))))
    else token_list_contains cohort (bucket_name bucket)

-- A text cut at each comma.
abbrev pub add_front : ℕ → List Text → List Text
add_front c [] = (c ∷ []) ∷ []
add_front c (t ∷ ts) = (c ∷ t) ∷ ts

abbrev pub split_commas : Text → List Text
split_commas [] = [] ∷ []
split_commas (c ∷ cs) =
    let rest = split_commas cs in if c == b',' then [] ∷ rest else add_front c rest

abbrev pub any_token : Text → List Text → Bool
any_token value [] = false
any_token value (t ∷ ts) = text_eq (trim t) value || any_token value ts

split-none : (t : Text) → index_of b',' t ≡ none → split_commas t ≡ t ∷ []
unfolding index_of
split-none [] h = refl
split-none (c ∷ cs) h = elim (Bool-cases (c == b',')) [
  | inl e ↦ cc (simp e at h)
  | inr e ↦ elim (Option-cases (index_of b',' cs)) [
    | inl f ↦ simp (e, split-none cs f)
    | inr (k, f) ↦ cc (rw (e, f, index_of) at h)
  ]
]

split-some :
    (t : Text) (k : ℕ)
    → index_of b',' t ≡ some k
    → split_commas t ≡ take k t ∷ split_commas (drop (suc k) t)
unfolding index_of
split-some [] k h = cc
split-some (c ∷ cs) k h = elim (Bool-cases (c == b',')) [
  | inl e ↦ let first : k ≡ 0 = ground (arith, h) in rw (first) (simp e)
  | inr e ↦ elim (Option-cases (index_of b',' cs)) [
    | inl f ↦ cc (rw (e, f, index_of) at h)
    | inr (j, f) ↦
        let next : k ≡ suc j = cc (rw (e, f, index_of) at h) in
        rw next (simp (e, split-some cs j f))
  ]
]

drop-le : (n : ℕ) (t : Text) → length (drop n t) ≤ length t
drop-le zero t = omega arith
drop-le (suc n) [] = omega arith
drop-le (suc n) (c ∷ cs) = omega (arith, drop-le n cs)

drop-lt : (k : ℕ) (t : Text) → index_of b',' t ≡ some k → length (drop (suc k) t) < length t
unfolding index_of
drop-lt k [] h = cc
drop-lt k (c ∷ cs) h = omega (arith, drop-le k cs)

or_false : (b : Bool) → b ≡ (b || false)
or_false true = refl
or_false false = refl

either_branch : (b c : Bool) → (if b then some true else some c) ≡ some (b || c)
either_branch true c = refl
either_branch false c = refl

contains_rest_lem :
    (rounds : ℕ) (t value : Text)
    → length t < rounds
    → contains_rest rounds t value ≡ some (any_token value (split_commas t))
unfolding contains_rest
contains_rest_lem zero t value h = absurd (omega arith)
contains_rest_lem (suc rounds) t value h = elim (Option-cases (index_of b',' t)) [
  | inl e ↦ rw (e, split-none t e, contains_rest) (ap some (or_false _))
  | inr (k, e) ↦
      let ih = contains_rest_lem rounds (drop (suc k) t) value (omega (arith, drop-lt k t e)) in
      rw (e, split-some t k e, contains_rest) (rw ih (either_branch _ _))
]

-- The loop of `tokenListContains` ends on every list, within one round more than it has bytes, and
-- finds the value exactly if it is one of the trimmed pieces between the commas.
pub token_list_contains_ends :
    (csv value : Text) → token_list_contains csv value ≡ some (any_token value (split_commas csv))
unfolding token_list_contains
token_list_contains_ends csv value = contains_rest_lem (suc (length csv)) csv value (omega arith)

-- A cohort "pct:" and a number, which goes by the number alone.
rollout_pct :
    (to_int : Text → ℤ) (mac number : Text)
    → matches_rollout_cohort to_int mac (codes "pct:" ++ number)
      ≡ some (ltb (device_cohort_bucket mac) (clamp_percent (to_int number)))
unfolding matches_rollout_cohort text_eq starts_with
rollout_pct to_int mac number = refl

some-true : (b : Bool) → some b ≡ some true → b ≡ true
some-true b h = cc

-- A staged rollout only grows: a device that the cohort "pct:p" admits is admitted by "pct:q", where
-- q is at least p once both are clamped to 0..100.
pub rollout_grows :
    (to_int : Text → ℤ) (mac p q : Text)
    → clamp_percent (to_int p) ≤ clamp_percent (to_int q)
    → matches_rollout_cohort to_int mac (codes "pct:" ++ p) ≡ some true
    → matches_rollout_cohort to_int mac (codes "pct:" ++ q) ≡ some true
rollout_grows to_int mac p q h admitted =
    let below = ltb→lt _ _ (some-true _ (rw (rollout_pct to_int mac p) at admitted)) in
    rw (rollout_pct to_int mac q) (ap some (lt→ltb _ _ (omega (arith, h, below))))
