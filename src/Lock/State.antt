-- ===== src/Lock/State.antt =====
-- The globals of lock_device.cpp, and `begin`.
use forge_key.Prelude.{ℕ, Bool, true, false, [], Text}

-- enum class State
pub data State : Type 0 where
  initializing secure unlocked accessing alarm : State

-- enum class Trigger
pub data Trigger : Type 0 where
  no_trigger signed_command mortise auto_unlock door_close alarm_timeout : Trigger

-- A debounced pin: its accepted value, and when it was first read otherwise (0 for never).
pub record Pin : Type 0 where
  pub value : Bool
  pub debounce_start : ℕ

-- `solenoid_on` is the level last written to the solenoid's pin.
pub record Lock : Type 0 where
  pub state : State
  pub last_trigger : Trigger
  pub reed_closed : Pin
  pub latch_locked : Pin
  pub ir_broken : Pin
  pub mortise_active : Pin
  pub solenoid_pulse_start : ℕ
  pub solenoid_pulsing : Bool
  pub solenoid_on : Bool
  pub alarm_flash_start : ℕ
  pub alarm_led_on : Bool
  pub unlock_time : ℕ
  pub last_telemetry_ms : ℕ
  pub mac_address : Text

-- The initial values of the globals.
unfoldable pub initial : Lock
initial = record {
  state = initializing;
  last_trigger = no_trigger;
  reed_closed = record { value = false; debounce_start = 0 };
  latch_locked = record { value = false; debounce_start = 0 };
  ir_broken = record { value = true; debounce_start = 0 };
  mortise_active = record { value = false; debounce_start = 0 };
  solenoid_pulse_start = 0;
  solenoid_pulsing = false;
  solenoid_on = false;
  alarm_flash_start = 0;
  alarm_led_on = false;
  unlock_time = 0;
  last_telemetry_ms = 0;
  mac_address = [];
}

abbrev reset_pin : Bool → Pin → Pin
reset_pin v p = record p { value = v }

unfoldable pub begin : Text → Lock → Lock
begin mac l = record l {
  state = initializing;
  last_trigger = no_trigger;
  mac_address = mac;
  solenoid_on = false;
  reed_closed = reset_pin false l.reed_closed;
  latch_locked = reset_pin false l.latch_locked;
  ir_broken = reset_pin true l.ir_broken;
  mortise_active = reset_pin false l.mortise_active;
  last_telemetry_ms = 0;
}
