-- ===== src/Relay/Examples.antt =====
-- The relay on a blank flash, and a frame behind line noise.
use forge_key.Prelude.{ℕ, ◌≡◌, refl, Bool, true, false, [], ◌∷◌, ◌++◌, arith, codes, negsuc, inl}
use forge_key.Json.{Conversions, Value, num, boolean, Document}
use forge_key.Outbox.Examples.{Memory, memory_api, memory_laws, erased}
use forge_key.Command.Examples.{lookup}
use forge_key.Relay.Meter.{Sample, initial, service_meter_serial}
use forge_key.Relay.Frames.{IsSendable, frame}
use forge_key.Relay.Serial.{HasReceived, service_meter_serial-frame}
use forge_key.Relay.Channels.{Relay, read_nvs, setup}
use forge_key.Relay.Persistence.{IsStored, sets, commands, calls, setup_restores}

-- Half a kilowatt flows back into the mains.
abbrev sample : Sample
sample = record {
  raw_current = 70000;
  raw_voltage = 3650000;
  raw_fast_current = 69000;
  raw_power = negsuc 311512;
  raw_energy_count = 12;
  raw_frequency = 16667;
  status = 0;
}

sample-IsSendable : IsSendable sample
sample-IsSendable = record {
  current = omega arith;
  voltage = omega arith;
  fast_current = omega arith;
  energy = omega arith;
  frequency = omega arith;
  power = omega arith;
}

service_meter_serial-frame_example :
    HasReceived 500 sample initial
      (service_meter_serial 500 ((0 ∷ 17 ∷ []) ++ frame sample 0 0 0) initial)
unfolding initial
service_meter_serial-frame_example =
    service_meter_serial-frame 500 0 0 0 (0 ∷ 17 ∷ []) sample initial (inl refl)
      (omega arith, (omega arith, tt)) sample-IsSendable

abbrev blank : Relay Memory
blank = record { states = false ∷ false ∷ []; ready = true; flash = erased; pulses = [] }

blank-IsStored : IsStored memory_api memory_laws blank
unfolding read_nvs
blank-IsStored = record { two = refl; stored = refl }

abbrev json : Conversions
json = record { as_u8 = as_number; as_bool = as_truth }
  where
    as_number : Value → ℕ
    as_number (num n) = n
    as_number _ = 0

    as_truth : Value → Bool
    as_truth (boolean b) = b
    as_truth _ = false

abbrev turn_on : Document
turn_on = lookup ((codes "channel", num 2) ∷ (codes "on", boolean true) ∷ [])

setup_restores_example :
    (setup memory_api
      (record (calls memory_api blank (sets 1 true ∷ commands json turn_on (codes "c") ∷ [])) {
        states = false ∷ false ∷ [];
        ready = false;
      })).states
    ≡ (calls memory_api blank (sets 1 true ∷ commands json turn_on (codes "c") ∷ [])).states
setup_restores_example =
    setup_restores memory_api memory_laws blank
      (sets 1 true ∷ commands json turn_on (codes "c") ∷ []) blank-IsStored
