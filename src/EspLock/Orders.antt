-- ===== src/EspLock/Orders.antt =====
-- The lock's operations: unlock, lockout, commissioning, acknowledgement, emergency.
use forge_key.Prelude.{ℕ, Bool, true, false, not, if◌then◌else◌, ℤ, Text, codes, is_empty}
use forge_key.Command.Auth.{Libraries, Device}
use forge_key.EspLock.State.{
  State, secure, unlocked, alarm, lockout, commissioning, Trigger, signed_command, lockout_trigger,
  clear_lockout, commission, init_ack, emergency_unlock, Lock,
}
use forge_key.EspLock.Tick.{suspend, resume, is_secure}
use forge_key.EspLock.Token.{validate_signed_command}

abbrev pub is_lockout : State → Bool
is_lockout lockout = true
is_lockout _ = false

-- The pulse, and the state UNLOCKED.
unfoldable pub open_lock : Trigger → ℕ → Lock → Lock
open_lock t now l = record l {
  solenoid_start_ms = now;
  solenoid_active = true;
  guard_depth = suspend l.guard_depth;
  solenoid_on = true;
  state = unlocked;
  state_start_ms = now;
  last_trigger = t;
}

unfoldable pub handle_unlock : Libraries → Device → Text → ℤ → ℕ → Lock → Lock × Bool
handle_unlock lib d token timestamp now l =
    if is_empty token
    then (l, false)
    else if is_lockout l.state
    then (l, false)
    else if not (
        validate_signed_command lib (record d { mac = l.mac_address }) token timestamp
          (codes "unlock"))
    then (l, false)
    else (open_lock signed_command now l, true)

-- SECURE if the door is, and ALARM otherwise.
abbrev settled : Lock → State
settled l = if is_secure l then secure else alarm

abbrev cut_pulse : Lock → Lock
cut_pulse l =
    if l.solenoid_active
    then record l {
      solenoid_on = false;
      solenoid_active = false;
      guard_depth = resume l.guard_depth;
    }
    else l

unfoldable pub set_lockout : Bool → ℕ → Lock → Lock
set_lockout true now l = record (cut_pulse l) {
  state = lockout;
  last_trigger = lockout_trigger;
  state_start_ms = now;
}
set_lockout false now l = record l {
  state = settled l;
  last_trigger = clear_lockout;
  state_start_ms = now;
}

unfoldable pub start_commissioning : ℕ → Lock → Lock × Bool
start_commissioning now l =
    if is_lockout l.state
    then (l, false)
    else (record l { state = commissioning; state_start_ms = now; last_trigger = commission }, true)

unfoldable pub ack_initialization : ℕ → Lock → Lock × Bool
ack_initialization now l =
    if is_lockout l.state
    then (l, false)
    else (record l { state = settled l; state_start_ms = now; last_trigger = init_ack }, true)

unfoldable pub handle_emergency_unlock : ℕ → Lock → Lock
handle_emergency_unlock now l = open_lock emergency_unlock now l
