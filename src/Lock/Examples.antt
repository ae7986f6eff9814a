-- ===== src/Lock/Examples.antt =====
-- The lock with chattering pins, and an unlock command over toy libraries.
use forge_key.Prelude.{◌≡◌, refl, true, false, List, [], ◌∷◌, arith, codes, index_of, pos, ◌⊎◌, All}
use forge_key.Command.Auth.{split_jwt}
use forge_key.Command.Examples.{toy, device}
use forge_key.Lock.State.{no_trigger, Pin, Lock, initial, secure, initializing}
use forge_key.Lock.Tick.{Inputs, tick}
use forge_key.Lock.Unlock.{validate_jwt}
use forge_key.Lock.Moves.{
  IsResting, Move, read_pins, tick-Move, Call, begins, ticks, unlocks, calls, IsValid,
}
use forge_key.Lock.Authority.{IsOff, IsRefused, refused_calls}

abbrev shut : Pin
shut = record { value = true; debounce_start = 0 }

abbrev quiet : Inputs
quiet = record { reed_raw = true; latch_raw = true; ir_raw = true; mortise_raw = false }

abbrev pulsing : Lock
pulsing = record {
  state = secure;
  last_trigger = no_trigger;
  reed_closed = shut;
  latch_locked = shut;
  ir_broken = shut;
  mortise_active = record { value = false; debounce_start = 0 };
  solenoid_pulse_start = 1000;
  solenoid_pulsing = true;
  solenoid_on = true;
  alarm_flash_start = 0;
  alarm_led_on = false;
  unlock_time = 1000;
  last_telemetry_ms = 0;
  mac_address = [];
}

pulsing-IsValid : IsValid pulsing
pulsing-IsValid = ground arith

tick-Move_example :
    (((tick 1500 quiet pulsing).state ≡ secure)
      × ((tick 1500 quiet pulsing).last_trigger ≡ no_trigger)
      × IsResting (read_pins 1500 quiet pulsing) secure)
    ⊎ Move
        (read_pins 1500 quiet pulsing)
        secure
        (tick 1500 quiet pulsing).state
        (tick 1500 quiet pulsing).last_trigger
tick-Move_example = tick-Move 1500 quiet pulsing

abbrev script : List Call
script =
    begins (codes "aa:bb")
    ∷ ticks 100 quiet
    ∷ unlocks device (codes "not-a-token") (pos 0) 200 200
    ∷ ticks 400 quiet
    ∷ []

script-IsRefused : All (IsRefused toy) script
unfolding validate_jwt split_jwt index_of
script-IsRefused = (tt, (tt, ((λ mac. refl), (tt, tt))))

refused_calls_example :
    IsOff (calls toy initial script)
    × (initializing ≡ initializing → (calls toy initial script).state ≡ initializing)
unfolding initial
refused_calls_example =
    refused_calls toy initial script script-IsRefused (record { unpowered = refl; no_pulse = refl })
