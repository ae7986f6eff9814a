-- ===== src/StatusLed/Shown.antt =====
-- The calls of the LED, one after the other, and what it shows.
use forge_key.Prelude.{◌≡◌, true, false, Option, some}
use mathlib.Core.Option
use forge_key.StatusLed.Led
use forge_key.StatusLed.Led.{Led}
use forge_key.StatusLed.Tick
use forge_key.StatusLed.Tick.{
  Readings, tick_flash, tick_phases, tick_single, next_phase, show, has_expired,
}
use forge_key.StatusLed.Calls.{tick}
use forge_key.StatusLed.Override.{lit_after, switched}

-- Where an override is on, a tick that does not end it switches the LED over exactly if 750 ms have
-- passed since it was last switched.
abbrev pub IsBlinking : Led → Type 0
IsBlinking s =
    (r : Readings)
    → s.blink_override ≡ true
    → has_expired r.expiry s ≡ false
    → lit_after (Tick.tick true r s) ≡ some (switched r s)
