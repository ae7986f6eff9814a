-- ===== src/EspLock/Tick.antt =====
-- `lock_gpio_read`, `lock_state_tick` and `update_local_status_led`.
use forge_key.Prelude.{ℕ, ◌+◌, ◌-◌, Bool, true, false, not, ◌&&◌, ltb, leb, if◌then◌else◌, elapsed}
use forge_key.EspLock.State.{
  State, initializing, secure, unlocked, accessing, alarm, lockout, commissioning, Trigger,
  signed_command, mortise, door_close, alarm_timeout, Pin, Lock,
}

-- What one tick reads from the pins.
pub record Inputs : Type 0 where
  pub reed_raw : Bool
  pub latch_raw : Bool
  pub ir_raw : Bool
  pub mortise_raw : Bool

abbrev same : Bool → Bool → Bool
same true b = b
same false b = not b

unfoldable pub debounce : ℕ → ℕ → Bool → Pin → Pin
debounce limit now raw p =
    if not p.init
    then record { value = raw; debounce_time = now; init = true }
    else if not (same raw p.value)
    then (if leb limit (elapsed now p.debounce_time)
        then record p { value = raw; debounce_time = now }
        else p)
    else record p { debounce_time = now }

unfoldable pub lock_gpio_read : ℕ → Inputs → Lock → Lock
unfolding debounce
lock_gpio_read now i l = record l {
  reed_closed = debounce 200 now i.reed_raw l.reed_closed;
  latch_locked = debounce 200 now i.latch_raw l.latch_locked;
  ir_broken = debounce 500 now i.ir_raw l.ir_broken;
  mortise_active = debounce 200 now i.mortise_raw l.mortise_active;
}

-- forgekey_watchdog_suspend and forgekey_watchdog_resume, on the depth.
abbrev pub suspend : ℕ → ℕ
suspend depth = if ltb depth 255 then depth + 1 else depth

abbrev pub resume : ℕ → ℕ
resume depth = if ltb 0 depth then depth - 1 else depth

unfoldable pub end_pulse : ℕ → Lock → Lock
end_pulse now l =
    if l.solenoid_active && leb 1500 (elapsed now l.solenoid_start_ms)
    then record l {
      solenoid_on = false;
      solenoid_active = false;
      guard_depth = resume l.guard_depth;
    }
    else l

abbrev pub is_secure : Lock → Bool
is_secure l = l.reed_closed.value && l.latch_locked.value

abbrev go_to : State → Trigger → ℕ → Lock → Lock
go_to s t now l = record l { state = s; last_trigger = t; state_start_ms = now }

-- UNLOCKED and ACCESSING alike; the automatic relock is compiled with 0, which switches it off.
abbrev step_open : ℕ → Lock → Lock
step_open now l =
    if is_secure l
    then go_to secure door_close now l
    else if l.mortise_active.value
    then go_to alarm mortise now l
    else l

-- The switch over the state.
unfoldable pub step : State → ℕ → Lock → Lock
step initializing now l = l
step secure now l =
    if is_secure l
    then l
    else if not l.reed_closed.value
    then go_to alarm alarm_timeout now l
    else if not l.latch_locked.value
    then go_to unlocked signed_command now l
    else l
step unlocked now l = step_open now l
step accessing now l = step_open now l
step alarm now l = if is_secure l then go_to secure alarm_timeout now l else l
step lockout now l = l
step commissioning now l = l

-- The flash interval of a state, 0 for a steady light.
unfoldable pub flash_interval : State → ℕ
flash_interval lockout = 100
flash_interval alarm = 200
flash_interval commissioning = 700
flash_interval initializing = 0
flash_interval secure = 0
flash_interval unlocked = 0
flash_interval accessing = 0

unfoldable pub steady_on : State → Bool
steady_on unlocked = true
steady_on accessing = true
steady_on initializing = false
steady_on secure = false
steady_on alarm = false
steady_on lockout = false
steady_on commissioning = false

unfoldable pub update_local_status_led : ℕ → Lock → Lock
unfolding flash_interval steady_on
update_local_status_led now l =
    if ltb 0 (flash_interval l.state)
    then (if leb (flash_interval l.state) (elapsed now l.led_last_toggle_ms)
        then record l { led_level = not l.led_level; led_last_toggle_ms = now }
        else l)
    else record l { led_level = steady_on l.state; led_last_toggle_ms = now }

unfoldable pub tick : ℕ → Inputs → Lock → Lock
tick now i l =
    let pulsed = end_pulse now (lock_gpio_read now i l) in
    update_local_status_led now (step pulsed.state now pulsed)
