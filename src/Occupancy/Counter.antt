-- ===== src/Occupancy/Counter.antt =====
-- `begin`, `updateCount` and `calculateStableCount`. A detection is a natural number: the source
-- would index its votes out of bounds with a negative one.
use forge_key.Prelude.{
  ℕ, zero, suc, ◌+◌, ◌%◌, Bool, true, false, ◌&&◌, List, [], ◌∷◌, ltb, leb, ◌==◌, if◌then◌else◌,
  modify, replicate,
}

-- struct OccupancyData, and the history beside it
pub record Counter : Type 0 where
  pub current_count : ℕ
  pub total_detected : ℕ
  pub last_update : ℕ
  pub changed : Bool
  pub history : List ℕ
  pub history_index : ℕ

unfoldable pub begin : ℕ → Counter
begin initial_count = record {
  current_count = initial_count;
  total_detected = 0;
  last_update = 0;
  changed = false;
  history = replicate 5 0;
  history_index = 0;
}

-- counts[i] after the loop over the history
unfoldable pub votes : ℕ → List ℕ → ℕ
votes i [] = 0
votes i (d ∷ ds) = (if leb d 5 && d == i then 1 else 0) + votes i ds

-- The loop from `i` on, for `rounds` counts, with maxCount and maxVotes.
unfoldable pub most_voted : ℕ → ℕ → List ℕ → ℕ → ℕ → ℕ
most_voted zero i history max_count max_votes = max_count
most_voted (suc rounds) i history max_count max_votes =
    let better = most_voted rounds (suc i) history i (votes i history) in
    let same = most_voted rounds (suc i) history max_count max_votes in
    if ltb max_votes (votes i history) then better else same

unfoldable pub calculate_stable_count : List ℕ → ℕ
unfolding most_voted votes
calculate_stable_count history = most_voted 6 0 history 0 0

unfoldable pub update_count : ℕ → ℕ → Counter → Counter
update_count now detected c =
    let history = modify c.history_index (λ _. detected) c.history in
    let stored = record c { history = history; history_index = (c.history_index + 1) % 5 } in
    let stable = calculate_stable_count history in
    if stable == c.current_count
    then record stored { changed = false }
    else record stored { changed = true; current_count = stable; last_update = now }
