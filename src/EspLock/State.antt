-- ===== src/EspLock/State.antt =====
-- The globals of lock_state.c, and `lock_state_begin`.
use forge_key.Prelude.{ℕ, Bool, true, false, [], Text}

-- lock_state_t
pub data State : Type 0 where
  initializing secure unlocked accessing alarm lockout commissioning : State

-- lock_trigger_t
pub data Trigger : Type 0 where
  no_trigger signed_command mortise auto_unlock door_close alarm_timeout : Trigger
  lockout_trigger clear_lockout commission init_ack emergency_unlock : Trigger

-- A debounced pin: its accepted value, when it last agreed with the reading, and whether it has
-- been read at all.
pub record Pin : Type 0 where
  pub value : Bool
  pub debounce_time : ℕ
  pub init : Bool

-- `solenoid_on` is the level last written to the solenoid's pin, and `guard_depth` is
-- s_suspend_depth of watchdog_manager.c, which an unlock raises.
pub record Lock : Type 0 where
  pub state : State
  pub last_trigger : Trigger
  pub mac_address : Text
  pub reed_closed : Pin
  pub latch_locked : Pin
  pub ir_broken : Pin
  pub mortise_active : Pin
  pub solenoid_start_ms : ℕ
  pub solenoid_active : Bool
  pub solenoid_on : Bool
  pub state_start_ms : ℕ
  pub last_telemetry_ms : ℕ
  pub led_level : Bool
  pub led_last_toggle_ms : ℕ
  pub last_secure : Bool
  pub last_item_present : Bool
  pub guard_depth : ℕ

abbrev blank_pin : Pin
blank_pin = record { value = false; debounce_time = 0; init = false }

-- The initial values of the globals.
unfoldable pub initial : Lock
initial = record {
  state = initializing;
  last_trigger = no_trigger;
  mac_address = [];
  reed_closed = blank_pin;
  latch_locked = blank_pin;
  ir_broken = blank_pin;
  mortise_active = blank_pin;
  solenoid_start_ms = 0;
  solenoid_active = false;
  solenoid_on = false;
  state_start_ms = 0;
  last_telemetry_ms = 0;
  led_level = false;
  led_last_toggle_ms = 0;
  last_secure = false;
  last_item_present = false;
  guard_depth = 0;
}

abbrev reset_pin : Bool → Pin → Pin
reset_pin v p = record p { value = v; init = false }

unfoldable pub begin : ℕ → Lock → Lock
begin now l = record l {
  state = initializing;
  last_trigger = no_trigger;
  solenoid_active = false;
  state_start_ms = now;
  last_telemetry_ms = 0;
  last_secure = false;
  last_item_present = false;
  led_level = false;
  led_last_toggle_ms = 0;
  reed_closed = reset_pin false l.reed_closed;
  latch_locked = reset_pin false l.latch_locked;
  ir_broken = reset_pin true l.ir_broken;
  mortise_active = reset_pin false l.mortise_active;
}
