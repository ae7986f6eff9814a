-- ===== src/Lock/Tick.antt =====
-- `tick`: debouncing, the state machine, the solenoid's pulse, the alarm's light.
use forge_key.Prelude.{ℕ, Bool, true, false, not, ◌&&◌, ◌||◌, leb, ◌==◌, if◌then◌else◌, elapsed}
use forge_key.Lock.State.{
  State, initializing, secure, unlocked, accessing, alarm, Trigger, signed_command, mortise,
  door_close, alarm_timeout, Pin, Lock,
}

-- What one tick reads from the pins.
pub record Inputs : Type 0 where
  pub reed_raw : Bool
  pub latch_raw : Bool
  pub ir_raw : Bool
  pub mortise_raw : Bool

abbrev pub differs : Bool → Bool → Bool
differs true b = not b
differs false b = b

unfoldable pub debounce : ℕ → ℕ → Bool → Pin → Pin
debounce limit now raw p =
    if differs raw p.value
    then (if p.debounce_start == 0
        then record p { debounce_start = now }
        else if leb limit (elapsed now p.debounce_start)
        then record { value = raw; debounce_start = 0 }
        else p)
    else record p { debounce_start = 0 }

unfoldable pub debounce_pins : ℕ → Inputs → Lock → Lock
unfolding debounce
debounce_pins now i l = record l {
  reed_closed = debounce 200 now i.reed_raw l.reed_closed;
  latch_locked = debounce 200 now i.latch_raw l.latch_locked;
  ir_broken = debounce 500 now i.ir_raw l.ir_broken;
  mortise_active = debounce 200 now i.mortise_raw l.mortise_active;
}

abbrev go_to : State → Trigger → Lock → Lock
go_to s t l = record l { state = s; last_trigger = t }

-- The switch over the state.
unfoldable pub step : State → ℕ → Lock → Lock
step initializing now l = l
step secure now l =
    if l.reed_closed.value && l.latch_locked.value
    then l
    else if l.solenoid_pulsing || not l.latch_locked.value
    then record (go_to unlocked signed_command l) { unlock_time = now }
    else if not l.reed_closed.value
    then go_to alarm alarm_timeout l
    else l
step unlocked now l =
    if l.latch_locked.value
    then go_to secure door_close l
    else if l.mortise_active.value
    then go_to alarm mortise l
    else l
step accessing now l =
    if not l.mortise_active.value && l.latch_locked.value
    then go_to secure door_close l
    else if l.mortise_active.value
    then go_to alarm mortise l
    else l
step alarm now l =
    if l.mortise_active.value
    then l
    else if l.latch_locked.value && l.reed_closed.value
    then go_to secure door_close l
    else l

unfoldable pub end_pulse : ℕ → Lock → Lock
end_pulse now l =
    if l.solenoid_pulsing && leb 1500 (elapsed now l.solenoid_pulse_start)
    then record l { solenoid_on = false; solenoid_pulsing = false }
    else l

abbrev is_alarm : State → Bool
is_alarm alarm = true
is_alarm _ = false

unfoldable pub flash : ℕ → Lock → Lock
flash now l =
    if is_alarm l.state && leb 200 (elapsed now l.alarm_flash_start)
    then record l { alarm_led_on = not l.alarm_led_on; alarm_flash_start = now }
    else l

unfoldable pub note_telemetry : ℕ → Lock → Lock
note_telemetry now l =
    if leb 10000 (elapsed now l.last_telemetry_ms) then record l { last_telemetry_ms = now } else l

unfoldable pub tick : ℕ → Inputs → Lock → Lock
unfolding debounce_pins step end_pulse flash note_telemetry
tick now i l =
    let read = debounce_pins now i l in
    note_telemetry now (flash now (end_pulse now (step read.state now read)))
