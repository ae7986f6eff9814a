-- ===== src/Ota/Stable.antt =====
-- `markStableIfPending`: the first report after an update.
use forge_key.Prelude.{Bool, true, false, not, Option, none, some, List, [], ◌∷◌, if◌then◌else◌}

-- esp_ota_get_state_partition: whether the image waits for its verification, `none` where the
-- query fails.
pub record Partition : Type 0 where
  pub pending_verify : Option Bool
  pub marks_valid : Bool  -- esp_ota_mark_app_valid_cancel_rollback() == ESP_OK

-- What was called: the mark, and the notice that the running version is applied.
pub data Step : Type 0 where
  mark_valid notify_applied : Step

-- `stableMarked` after the call; `running` is esp_ota_get_running_partition.
unfoldable pub mark_stable_if_pending : Option Partition → Bool → Bool × List Step
mark_stable_if_pending running stable_marked = if stable_marked then (true, []) else elim running [
  | none ↦ (false, [])
  | some partition ↦ elim partition.pending_verify [
    | none ↦ (false, [])
    | some pending ↦
        if not pending
        then (true, [])
        else if partition.marks_valid
        then (true, mark_valid ∷ notify_applied ∷ [])
        else (true, mark_valid ∷ [])
  ]
]
