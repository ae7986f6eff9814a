-- ===== src/Lock/Telemetry.antt =====
-- What the lock reports: `getTelemetry` and `stateName`.
use forge_key.Prelude.{ℕ, Bool, ◌&&◌, Text, codes}
use forge_key.Lock.State.{State, initializing, secure, unlocked, accessing, alarm, Lock}

-- struct Telemetry
pub record Telemetry : Type 0 where
  pub is_secure : Bool
  pub reed_closed : Bool
  pub latch_locked : Bool
  pub ir_broken : Bool
  pub mortise_active : Bool
  pub uptime_ms : ℕ

unfoldable pub get_telemetry : ℕ → Lock → Telemetry
get_telemetry now l = record {
  is_secure = l.reed_closed.value && l.latch_locked.value;
  reed_closed = l.reed_closed.value;
  latch_locked = l.latch_locked.value;
  ir_broken = l.ir_broken.value;
  mortise_active = l.mortise_active.value;
  uptime_ms = now;
}

unfoldable pub state_name : State → Text
state_name initializing = codes "INITIALIZING"
state_name secure = codes "SECURE"
state_name unlocked = codes "UNLOCKED"
state_name accessing = codes "ACCESSING"
state_name alarm = codes "ALARM"
