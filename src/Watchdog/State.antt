-- ===== src/Watchdog/State.antt =====
-- The globals of watchdog_manager.cpp.
use forge_key.Prelude.{ℕ, Bool, true, false, Option, none, List, [], ◌∷◌, Text}

-- enum class Subsystem
pub data Subsystem : Type 0 where
  wifi mqtt camera ota ble sensors lock_state_machine count : Subsystem

-- static_cast<size_t>(subsystem)
abbrev pub index : Subsystem → ℕ
index wifi = 0
index mqtt = 1
index camera = 2
index ota = 3
index ble = 4
index sensors = 5
index lock_state_machine = 6
index count = 7

abbrev pub warning_interval_ms : ℕ
warning_interval_ms = 60000

abbrev pub reboot_after_ms : ℕ
reboot_after_ms = 900000

-- struct SubsystemState, without its name
pub record SubsystemState : Type 0 where
  pub timeout_ms : ℕ
  pub last_healthy_ms : ℕ
  pub first_overdue_ms : ℕ
  pub last_warning_ms : ℕ
  pub warning_count : ℕ
  pub recovery_count : ℕ
  pub busy : Bool
  pub enabled : Bool
  pub overdue : Bool

pub record Watchdog : Type 0 where
  pub subsystems : List SubsystemState
  pub started : Bool
  pub suspend_depth : ℕ  -- uint8
  pub suspend_reason : Option Text
  pub boot_ms : ℕ

abbrev fresh : ℕ → SubsystemState
fresh timeout = record {
  timeout_ms = timeout;
  last_healthy_ms = 0;
  first_overdue_ms = 0;
  last_warning_ms = 0;
  warning_count = 0;
  recovery_count = 0;
  busy = false;
  enabled = true;
  overdue = false;
}

-- The initial values of the globals.
unfoldable pub initial : Watchdog
initial = record {
  subsystems =
      fresh 120000
      ∷ fresh 180000
      ∷ fresh 180000
      ∷ fresh 600000
      ∷ fresh 300000
      ∷ fresh 300000
      ∷ fresh 30000
      ∷ [];
  started = false;
  suspend_depth = 0;
  suspend_reason = none;
  boot_ms = 0;
}
