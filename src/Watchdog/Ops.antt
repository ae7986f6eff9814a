-- ===== src/Watchdog/Ops.antt =====
-- The operations that other modules call: begin, setEnabled, markHealthy, markBusy, markIdle,
-- suspend and resume.
use forge_key.Prelude.{
  ℕ, ◌+◌, ◌-◌, Bool, true, false, none, some, map, ltb, ◌==◌, if◌then◌else◌, modify, Text,
}
use forge_key.Watchdog.State.{Subsystem, index, SubsystemState, Watchdog}

-- `stateFor` yields no cell for `Count`, and the callers then return.
abbrev pub with_state : Subsystem → (SubsystemState → SubsystemState) → Watchdog → Watchdog
with_state s f w =
    if ltb (index s) 7 then record w { subsystems = modify (index s) f w.subsystems } else w

-- The cell's part of `begin`.
abbrev pub start_cell : ℕ → SubsystemState → SubsystemState
start_cell now c = record c {
  last_healthy_ms = now;
  first_overdue_ms = 0;
  last_warning_ms = 0;
  warning_count = 0;
  recovery_count = 0;
  busy = false;
  overdue = false;
}

unfoldable pub begin : ℕ → Watchdog → Watchdog
begin now w = record w {
  subsystems = map (start_cell now) w.subsystems;
  started = true;
  boot_ms = now;
}

-- The cell's part of `markHealthy`.
abbrev pub healthy_cell : ℕ → SubsystemState → SubsystemState
healthy_cell now c = record c { last_healthy_ms = now; first_overdue_ms = 0; overdue = false }

unfoldable pub mark_healthy : ℕ → Subsystem → Watchdog → Watchdog
mark_healthy now s w = with_state s (healthy_cell now) w

unfoldable pub mark_busy : ℕ → Subsystem → Watchdog → Watchdog
unfolding mark_healthy
mark_busy now s w = mark_healthy now s (with_state s (λ c. record c { busy = true }) w)

unfoldable pub mark_idle : ℕ → Subsystem → Watchdog → Watchdog
unfolding mark_healthy
mark_idle now s w = mark_healthy now s (with_state s (λ c. record c { busy = false }) w)

abbrev pub disable_cell : SubsystemState → SubsystemState
disable_cell c = record c { first_overdue_ms = 0; overdue = false; busy = false }

unfoldable pub set_enabled : ℕ → Subsystem → Bool → Watchdog → Watchdog
unfolding mark_healthy
set_enabled now s on w =
    let switched = with_state s (λ c. record c { enabled = on }) w in
    if on then mark_healthy now s switched else with_state s disable_cell switched

unfoldable pub suspend : Text → Watchdog → Watchdog
suspend reason w = record w {
  suspend_depth = if ltb w.suspend_depth 255 then w.suspend_depth + 1 else w.suspend_depth;
  suspend_reason = some reason;
}

-- A busy subsystem starts afresh when the last safe section ends.
abbrev pub refresh_busy : ℕ → SubsystemState → SubsystemState
refresh_busy now c = if c.busy then record c { last_healthy_ms = now } else c

unfoldable pub resume : ℕ → Watchdog → Watchdog
resume now w =
    let depth = if ltb 0 w.suspend_depth then w.suspend_depth - 1 else w.suspend_depth in
    if depth == 0
    then record w {
      suspend_depth = depth;
      suspend_reason = none;
      subsystems = map (refresh_busy now) w.subsystems;
    }
    else record w { suspend_depth = depth }
