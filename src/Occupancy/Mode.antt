-- ===== src/Occupancy/Mode.antt =====
-- What the counter reports: the most frequent of the counts.
use forge_key.Prelude.{
  ℕ, zero, suc, ◌+◌, ◌≤◌, ◌<◌, ◌≡◌, ◌≢◌, refl, true, false, List, arith, ltb, ◌==◌, length,
  length-modify, subst, sym, ◌∙◌, Bool-cases, ltb→lt, modify, ◌⊎◌, inl, inr, ◌∷◌, if◌then◌else◌, [],
}
use forge_key.Occupancy.Counter.{
  Counter, begin, votes, most_voted, calculate_stable_count, update_count,
}

-- How often a count stands in a history.
abbrev pub occurrences : ℕ → List ℕ → ℕ
occurrences i [] = 0
occurrences i (d ∷ ds) = if d == i then suc (occurrences i ds) else occurrences i ds

-- A count that no other count of 0 to 5 beats: it stands in the history at least as often as each,
-- and more often than each smaller one.
pub record IsMode (history : List ℕ) (n : ℕ) : Type 0 where
  pub in_range : n ≤ 5
  pub most : (i : ℕ) → i ≤ 5 → occurrences i history ≤ occurrences n history
  pub first : (i : ℕ) → i < n → occurrences i history < occurrences n history

-- Each count of 0 to 5 gets a vote for each of its occurrences.
votes-occurrences : (i : ℕ) (history : List ℕ) → i ≤ 5 → votes i history ≡ occurrences i history
unfolding votes
votes-occurrences i [] h = refl
votes-occurrences i (d ∷ ds) h = ground (arith, votes-occurrences i ds h)

-- A count that wins by the votes.
record IsElected (history : List ℕ) (n : ℕ) : Type 0 where
  in_range : n ≤ 5
  most : (i : ℕ) → i ≤ 5 → votes i history ≤ votes n history
  first : (i : ℕ) → i < n → votes i history < votes n history

IsElected-IsMode : (history : List ℕ) (n : ℕ) → IsElected history n → IsMode history n
IsElected-IsMode history n e = record {
  in_range = e.in_range;
  most = λ i h.
      omega
        (arith, e.most i h, votes-occurrences i history h, votes-occurrences n history e.in_range);
  first = λ i h. omega (
    arith,
    e.first i h,
    votes-occurrences i history (omega (arith, e.in_range)),
    votes-occurrences n history e.in_range,
  );
}

-- The state of the loop: the best of the counts below `i`, with its votes.
record IsBest (history : List ℕ) (i best top : ℕ) : Type 0 where
  known : top ≤ votes best history
  small : best ≤ 5
  most : (j : ℕ) → j < i → votes j history ≤ top
  first : (j : ℕ) → j < best → votes j history < top

IsBest-next :
    (history : List ℕ) (i best top : ℕ)
    → i ≤ 5
    → IsBest history i best top
    → top < votes i history
    → IsBest history (suc i) i (votes i history)
IsBest-next history i best top h b better = record {
  known = omega arith;
  small = h;
  most = λ j k. elim (lt_or_eq j i k) [
    | inl less ↦ omega (arith, b.most j less)
    | inr same ↦ subst (λ n. votes n history ≤ votes i history) (sym same) (omega arith)
  ];
  first = λ j k. omega (arith, b.most j k);
}
  where
    lt_or_eq : (j n : ℕ) → j < suc n → (j < n) ⊎ (j ≡ n)
    lt_or_eq j n k = omega arith

IsBest-same :
    (history : List ℕ) (i best top : ℕ)
    → IsBest history i best top
    → votes i history ≤ top
    → IsBest history (suc i) best top
IsBest-same history i best top b worse = record {
  known = b.known;
  small = b.small;
  most = λ j k. elim (lt_or_eq j i k) [
    | inl less ↦ b.most j less
    | inr same ↦ subst (λ n. votes n history ≤ top) (sym same) worse
  ];
  first = b.first;
}
  where
    lt_or_eq : (j n : ℕ) → j < suc n → (j < n) ⊎ (j ≡ n)
    lt_or_eq j n k = omega arith

most_voted-IsElected :
    (rounds i : ℕ) (history : List ℕ) (best top : ℕ)
    → i + rounds ≡ 6
    → IsBest history i best top
    → IsElected history (most_voted rounds i history best top)
unfolding most_voted
most_voted-IsElected zero i history best top h b = record {
  in_range = b.small;
  most = λ j k. omega (arith, b.most j (omega arith), b.known);
  first = λ j k. omega (arith, b.first j k, b.known);
}
most_voted-IsElected (suc rounds) i history best top h b =
    elim (Bool-cases (ltb top (votes i history))) [
      | inl e ↦ simp e (
          most_voted-IsElected rounds (suc i) history i (votes i history) (omega arith)
            (IsBest-next history i best top (omega arith) b (ltb→lt top (votes i history) e)))
      | inr e ↦ simp e (
          most_voted-IsElected rounds (suc i) history best top (omega arith)
            (IsBest-same history i best top b (ground arith)))
    ]

-- The stable count of a history is its mode among 0 to 5: no count of 0 to 5 stands in the history
-- more often, and each smaller one stands there less often.
pub calculate_stable_count-IsMode :
    (history : List ℕ) → IsMode history (calculate_stable_count history)
unfolding calculate_stable_count
calculate_stable_count-IsMode history = IsElected-IsMode history (calculate_stable_count history) (
    most_voted-IsElected 6 0 history 0 0 refl (record {
      known = omega arith;
      small = omega arith;
      most = λ j k. absurd (omega arith);
      first = λ j k. absurd (omega arith);
    }))

-- Five places in the history, and the next one to write among them.
pub record IsValid (c : Counter) : Type 0 where
  pub five : length c.history ≡ 5
  pub next_fits : c.history_index < 5

pub begin-IsValid : (n : ℕ) → IsValid (begin n)
unfolding begin
begin-IsValid n = record { five = refl; next_fits = omega arith }

-- An update of a valid counter keeps it valid and makes the mode of the new history the current
-- count. It reports a change exactly if the current count is another than before, and notes the
-- time just then.
pub update_count_lem :
    (now detected : ℕ) (c : Counter)
    → IsValid c
    → let t = update_count now detected c in
      IsValid t
      × IsMode t.history t.current_count
      × (((t.changed ≡ true) × (t.current_count ≢ c.current_count) × (t.last_update ≡ now))
          ⊎ ((t.changed ≡ false)
              × (t.current_count ≡ c.current_count)
              × (t.last_update ≡ c.last_update)))
unfolding update_count
update_count_lem now detected c v =
    let history = modify c.history_index (λ _. detected) c.history in
    let valid = length-modify c.history_index (λ _. detected) c.history ∙ v.five in
    let mode = calculate_stable_count-IsMode history in
    elim (Bool-cases (calculate_stable_count history == c.current_count)) [
      | inr e ↦
          simp e
            (record { five = valid; next_fits = omega arith }, mode, inl (refl, ground arith, refl))
      | inl e ↦
          let same : calculate_stable_count history ≡ c.current_count = ground arith in
          simp e (
            record { five = valid; next_fits = omega arith },
            subst (IsMode history) same mode,
            inr (refl, refl, refl),
          )
    ]
