-- ===== src/StatusLed/Examples.antt =====
-- An LED through an identify command.
use forge_key.Prelude.{ℕ, List, [], ◌∷◌}
use forge_key.StatusLed.Pattern.{connected}
use forge_key.StatusLed.Led.{Led}
use forge_key.StatusLed.Tick.{Readings}
use forge_key.StatusLed.Calls.{Call, tick, request, flash, override_timed, consume}

-- A tick in which all readings agree.
abbrev at : ℕ → Readings
at n = record { expiry = n; resumed = n; switched = n; now = n; applied = n }

abbrev session : List Call
session =
    request connected
    ∷ tick (at 1000)
    ∷ override_timed 1500 1500 30000
    ∷ flash 2000 2000
    ∷ tick (at 31600)
    ∷ consume
    ∷ []
