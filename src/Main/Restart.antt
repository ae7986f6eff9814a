-- ===== src/Main/Restart.antt =====
-- The commands that end in `ESP.restart()`: `restart` in `onCommandMessage`, and the three of
-- `device_lifecycle`. The boot keeps the flash and starts the globals anew.
use forge_key.Prelude.{Bool, true, false, ◌||◌, List, [], ◌∷◌}
use forge_key.Command.Replay
use forge_key.Lock.State
use forge_key.Main.Commands.{Action, restart, end_life, Machine}

-- `end_life` stands for `handleSignedCommand`, which ends in `rebootSoon()` for each of its three
-- actions.
abbrev is_reboot : Action → Bool
is_reboot restart = true
is_reboot (end_life l actor) = true
is_reboot _ = false

-- Whether a command ended in a reboot.
abbrev pub reboots : List Action → Bool
reboots [] = false
reboots (a ∷ as') = is_reboot a || reboots as'

-- The globals as they start, before the lock's `begin` and before the first command reads the
-- stored entries.
abbrev pub booted : Machine → Machine
booted s = record {
  cache = Replay.initial;
  stored = s.stored;
  support = record { until_ms = 0; last_heartbeat_ms = 0; debug_output = false };
  lock = State.initial;
}
