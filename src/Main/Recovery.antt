-- ===== src/Main/Recovery.antt =====
-- `recoverSubsystem`, the recovery callback that the main program gives to the watchdog.
use forge_key.Prelude.{
  ℕ, Option, none, ◌≤◌, ◌<◌, ◌≡◌, refl, Bool, true, false, some, List, [], ◌∷◌, get_elem?,
  if◌then◌else◌,
}
use forge_key.Watchdog.State.{
  wifi, mqtt, camera, ota, ble, sensors, lock_state_machine, count, Subsystem, SubsystemState,
  Watchdog, reboot_after_ms,
}
use forge_key.Watchdog.Tick.{Readings, World, is_overdue, warning_due, tick}
use forge_key.Watchdog.Safety.{at_loop, restarts}
use forge_key.Watchdog.Escalation.{recovered-restarts}

pub data LinkCall : Type 0 where
  wifi_reconnect mqtt_restart : LinkCall

-- What the callback returns, and its calls. `wifi_connected` is whether WiFi.status() is
-- WL_CONNECTED, `restarted` is what mqttClient.restart() returns.
unfoldable pub recover_subsystem : Bool → Bool → Subsystem → Bool × List LinkCall
recover_subsystem wifi_connected restarted wifi =
    if wifi_connected then (true, []) else (true, wifi_reconnect ∷ [])
recover_subsystem wifi_connected restarted mqtt = (restarted, mqtt_restart ∷ [])
recover_subsystem wifi_connected restarted ble = (true, [])
recover_subsystem wifi_connected restarted camera = (false, [])
recover_subsystem wifi_connected restarted sensors = (false, [])
recover_subsystem wifi_connected restarted lock_state_machine = (false, [])
recover_subsystem wifi_connected restarted ota = (false, [])
recover_subsystem wifi_connected restarted count = (false, [])

abbrev or_count : Option Subsystem → Subsystem
or_count none = count
or_count (some s) = s

-- static_cast<Subsystem>(i), for the indices of the watchdog's table.
abbrev pub from_index : ℕ → Subsystem
from_index i =
    or_count (get_elem? (wifi ∷ mqtt ∷ camera ∷ ota ∷ ble ∷ sensors ∷ lock_state_machine ∷ []) i)

-- The outside of a watchdog tick with this callback set.
unfoldable pub watched : Bool → Bool → Bool → World
unfolding recover_subsystem
watched wifi_connected mqtt_connected restarted = record {
  wifi_connected = wifi_connected;
  mqtt_connected = mqtt_connected;
  recover = some (λ i. (recover_subsystem wifi_connected restarted (from_index i)).0);
}

-- The callback calls an overdue BLE subsystem recovered without doing anything, so as to give it
-- one more interval; yet with that answer the same tick restarts the device, if a warning is due,
-- the device has been up for fifteen minutes, the uptime has not wrapped in the reading, and no
-- safe section is open.
pub ble_recovery-restarts :
    (begin_ms : ℕ) (r : Readings) (w : Watchdog) (c : SubsystemState)
    (wifi_connected mqtt_connected restarted : Bool)
    → let world = watched wifi_connected mqtt_connected restarted in
      get_elem? (at_loop begin_ms r world w).subsystems 4 ≡ some c
      → is_overdue r.now c ≡ true
      → w.suspend_depth ≡ 0
      → r.now < 4294967296
      → reboot_after_ms ≤ r.now
      → warning_due r.now c ≡ true
      → (recover_subsystem wifi_connected restarted ble ≡ (true, []))
        × (restarts (tick begin_ms r world w).1 ≡ true)
unfolding recover_subsystem watched
ble_recovery-restarts begin_ms r w c wifi_connected mqtt_connected restarted cell overdue guarded
      word late due =
    (
      refl,
      recovered-restarts begin_ms r (watched wifi_connected mqtt_connected restarted) w 4 c cell
          overdue guarded word late due refl,
    )
