-- ===== src/Occupancy/Examples.antt =====
-- Five detections, one of them off.
use forge_key.Prelude.{[], ◌∷◌}
use forge_key.Occupancy.Counter.{calculate_stable_count}
use forge_key.Occupancy.Mode.{IsMode, calculate_stable_count-IsMode}

calculate_stable_count-IsMode_example :
    IsMode (2 ∷ 2 ∷ 3 ∷ 9 ∷ 3 ∷ []) (calculate_stable_count (2 ∷ 2 ∷ 3 ∷ 9 ∷ 3 ∷ []))
calculate_stable_count-IsMode_example = calculate_stable_count-IsMode (2 ∷ 2 ∷ 3 ∷ 9 ∷ 3 ∷ [])
