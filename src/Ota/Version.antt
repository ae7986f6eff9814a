-- ===== src/Ota/Version.antt =====
-- `compareVersion`: versions are compared number by number, whatever stands between the numbers.
use forge_key.Prelude.{
  ℕ, zero, suc, ◌+◌, ◌-◌, ◌*◌, ◌<◌, Bool, ◌&&◌, Option, none, some, List, [], ◌∷◌, ltb, leb,
  if◌then◌else◌, length, tail, Text, is_empty, u32, ◌≡◌, refl, sym, ap, arith, Bool-cases, inl, inr,
  true, false, ◌≤◌,
}

-- The result: -1, 0 or 1.
pub data Order : Type 0 where
  less same greater : Order

abbrev pub is_digit : ℕ → Bool
is_digit c = leb b'0' c && leb c b'9'

-- while (i < length && !isDigit(s[i])) i++
unfoldable pub skip_others : Text → Text
skip_others [] = []
skip_others (c ∷ cs) = if is_digit c then c ∷ cs else skip_others cs

-- The digits in front, as an `unsigned long`, and the text behind them.
unfoldable pub read_number : ℕ → Text → ℕ × Text
read_number v [] = (v, [])
read_number v (c ∷ cs) =
    if is_digit c then read_number (u32 (v * 10 + (c - b'0'))) cs else (v, c ∷ cs)

-- The loop, on the texts that are left; `none` where the rounds run out.
unfoldable pub compare_rest : ℕ → Text → Text → Option Order
unfolding skip_others read_number
compare_rest zero a b = none
compare_rest (suc rounds) a b =
    let (va, a') = read_number 0 (skip_others a) in
    let (vb, b') = read_number 0 (skip_others b) in
    let rest = compare_rest rounds a' b' in
    if is_empty a && is_empty b
    then some same
    else if ltb va vb
    then some less
    else if ltb vb va
    then some greater
    else if is_empty a' && is_empty b'
    then some same
    else rest

-- A round consumes a byte of a text that is not empty, so this many rounds are enough.
unfoldable pub compare_version : Text → Text → Option Order
compare_version a b = compare_rest (suc (length a + length b)) a b

-- The numbers of a version: its longest runs of digits; `some v` inside a run of the value `v`.
abbrev pub numbers_from : Option ℕ → Text → List ℕ
numbers_from none [] = []
numbers_from (some v) [] = v ∷ []
numbers_from none (c ∷ cs) =
    let rest = numbers_from none cs in
    let start = numbers_from (some (c - b'0')) cs in if is_digit c then start else rest
numbers_from (some v) (c ∷ cs) =
    let stop = v ∷ numbers_from none cs in
    let further = numbers_from (some (u32 (v * 10 + (c - b'0')))) cs in
    if is_digit c then further else stop

abbrev pub numbers : Text → List ℕ
numbers t = numbers_from none t

-- Lists of numbers in lexicographic order, where a missing number counts as 0.
abbrev pub compare_numbers : List ℕ → List ℕ → Order
compare_numbers [] [] = same
compare_numbers [] (y ∷ ys) = let rest = compare_numbers [] ys in if ltb 0 y then less else rest
compare_numbers (x ∷ xs) [] = let rest = compare_numbers xs [] in if ltb 0 x then greater else rest
compare_numbers (x ∷ xs) (y ∷ ys) =
    let rest = compare_numbers xs ys in if ltb x y then less else if ltb y x then greater else rest

abbrev head_or_zero : List ℕ → ℕ
head_or_zero [] = 0
head_or_zero (x ∷ xs) = x

compare_numbers_step :
    (xs ys : List ℕ)
    → compare_numbers xs ys ≡ (
        if ltb (head_or_zero xs) (head_or_zero ys)
        then less
        else if ltb (head_or_zero ys) (head_or_zero xs)
        then greater
        else compare_numbers (tail xs) (tail ys))
compare_numbers_step [] [] = refl
compare_numbers_step [] (y ∷ ys) = ground arith
compare_numbers_step (x ∷ xs) [] = ground arith
compare_numbers_step (x ∷ xs) (y ∷ ys) = refl

-- Inside a run, `read_number` finds the run's value and stops where the run ends.
numbers-read_number :
    (v : ℕ) (t : Text) → numbers_from (some v) t ≡ (read_number v t).0 ∷ numbers (read_number v t).1
unfolding read_number
numbers-read_number v [] = refl
numbers-read_number v (c ∷ cs) = elim (Bool-cases (is_digit c)) [
  | inl digit ↦ simp digit (numbers-read_number (u32 (v * 10 + (c - b'0'))) cs)
  | inr other ↦ simp other
]

-- What one round takes from a text.
abbrev front : Text → ℕ × Text
front t = read_number 0 (skip_others t)

first_digit : (c : ℕ) → is_digit c ≡ true → u32 (0 * 10 + (c - b'0')) ≡ c - b'0'
first_digit c h = ground arith

front-digit : (c : ℕ) (cs : Text) → is_digit c ≡ true → front (c ∷ cs) ≡ read_number (c - b'0') cs
unfolding skip_others read_number
front-digit c cs h = simp (h, first_digit c h)

front-other : (c : ℕ) (cs : Text) → is_digit c ≡ false → front (c ∷ cs) ≡ front cs
unfolding skip_others
front-other c cs h = simp h

front-numbers :
    (t : Text) → ((front t).0 ≡ head_or_zero (numbers t)) × (numbers (front t).1 ≡ tail (numbers t))
unfolding skip_others read_number
front-numbers [] = (refl, refl)
front-numbers (c ∷ cs) = elim (Bool-cases (is_digit c)) [
  | inr other ↦ rw (front-other c cs other) (simp other (front-numbers cs))
  | inl digit ↦
      let run = numbers-read_number (c - b'0') cs in
      rw (front-digit c cs digit) (simp (digit, run), simp (digit, run))
]

read_number-le : (v : ℕ) (t : Text) → length (read_number v t).1 ≤ length t
unfolding read_number
read_number-le v [] = omega arith
read_number-le v (c ∷ cs) = ground (arith, read_number-le (u32 (v * 10 + (c - b'0'))) cs)

front-le : (t : Text) → length (front t).1 ≤ length t - 1
unfolding skip_others read_number
front-le [] = omega arith
front-le (c ∷ cs) = elim (Bool-cases (is_digit c)) [
  | inr other ↦ rw (front-other c cs other) (omega (arith, front-le cs))
  | inl digit ↦ rw (front-digit c cs digit) (omega (arith, read_number-le (c - b'0') cs))
]

both_empty :
    (a b : Text)
    → (is_empty a && is_empty b) ≡ true
    → compare_numbers (numbers a) (numbers b) ≡ same
both_empty [] [] h = refl
both_empty [] (y ∷ ys) h = cc
both_empty (x ∷ xs) b h = cc

not_both_empty : (a b : Text) → (is_empty a && is_empty b) ≡ false → 0 < length a + length b
not_both_empty [] [] h = cc
not_both_empty [] (y ∷ ys) h = omega arith
not_both_empty (x ∷ xs) b h = omega arith

some_branches :
    (lt gt done : Bool) (o : Order)
    → (done ≡ true → o ≡ same)
    → (if lt then some less else if gt then some greater else if done then some same else some o)
      ≡ some (if lt then less else if gt then greater else o)
some_branches true gt done o h = refl
some_branches false true done o h = refl
some_branches false false true o h = ap some (sym (h refl))
some_branches false false false o h = refl

-- One round, where the two texts are not both used up.
compare_rest_step :
    (rounds : ℕ) (a b : Text)
    → (is_empty a && is_empty b) ≡ false
    → compare_rest rounds (front a).1 (front b).1
      ≡ some (compare_numbers (tail (numbers a)) (tail (numbers b)))
    → compare_rest (suc rounds) a b ≡ some (compare_numbers (numbers a) (numbers b))
unfolding compare_rest
compare_rest_step rounds a b h ih =
    let (p, q) = front-numbers a in
    let (r, s) = front-numbers b in
    let e = both_empty (front a).1 (front b).1 in
    rw (compare_numbers_step (numbers a) (numbers b))
      (rw (h, p, r, ih) (some_branches _ _ _ _ (rw (q, s) at e)))

compare_rest_lem :
    (rounds : ℕ) (a b : Text)
    → length a + length b < rounds
    → compare_rest rounds a b ≡ some (compare_numbers (numbers a) (numbers b))
compare_rest_lem zero a b h = absurd (omega arith)
compare_rest_lem (suc rounds) a b h = elim (Bool-cases (is_empty a && is_empty b)) [
  | inl done ↦ unfold compare_rest in rw (done, both_empty a b done) refl
  | inr more ↦
      let shorter : length (front a).1 + length (front b).1 < rounds =
        omega (arith, front-le a, front-le b, not_both_empty a b more) in
      let ih = compare_rest_lem rounds (front a).1 (front b).1 shorter in
      compare_rest_step rounds a b more (rw ((front-numbers a).1, (front-numbers b).1) at ih)
]

-- The loop of `compareVersion` ends on every two texts, within one round more than they have bytes,
-- and its answer is the lexicographic order of the numbers (modulo 2^32) in the two versions, where
-- the shorter one is continued by zeros. What stands between the numbers plays no part.
pub compare_version_ends :
    (a b : Text) → compare_version a b ≡ some (compare_numbers (numbers a) (numbers b))
unfolding compare_version
compare_version_ends a b = compare_rest_lem (suc (length a + length b)) a b (omega arith)
