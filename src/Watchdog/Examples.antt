-- ===== src/Watchdog/Examples.antt =====
-- The watchdog on concrete readings of the clock.
use forge_key.Prelude.{
  ℕ, ◌*◌, ◌≡◌, refl, true, false, not, ◌&&◌, ◌||◌, none, List, [], ◌∷◌, arith, ltb, codes,
}
use forge_key.Watchdog.State.{SubsystemState, Watchdog, initial, ble}
use forge_key.Watchdog.Tick.{Readings, World, tick, sweep, refresh_links, overdue_round}
use forge_key.Watchdog.Invariant.{
  IsValid, initial-IsValid, Call, begins, marks_busy, suspends, resumes, ticks, calls,
  calls-IsValid,
}
use forge_key.Watchdog.Safety.{feeds, restarts, at_loop, some_overdue, tick-feeds}
use forge_key.Watchdog.Escalation.{unrecovered-restarts}

abbrev at_minute : ℕ → Readings
at_minute n = record {
  now = n * 60000;
  wifi_ms = n * 60000;
  mqtt_ms = n * 60000;
  recovered_ms = λ i. n * 60000;
}

abbrev offline : World
offline = record { wifi_connected = false; mqtt_connected = false; recover = none }

-- The lock's cell, overdue since the first minute.
abbrev stuck : SubsystemState
stuck = record {
  timeout_ms = 30000;
  last_healthy_ms = 0;
  first_overdue_ms = 60000;
  last_warning_ms = 60000;
  warning_count = 1;
  recovery_count = 0;
  busy = false;
  enabled = true;
  overdue = true;
}

abbrev with_stuck : Watchdog
with_stuck = record {
  subsystems = stuck ∷ stuck ∷ stuck ∷ stuck ∷ stuck ∷ stuck ∷ stuck ∷ [];
  started = true;
  suspend_depth = 0;
  suspend_reason = none;
  boot_ms = 0;
}

abbrev script : List Call
script =
    begins 0
    ∷ marks_busy 10 ble
    ∷ suspends (codes "ota_apply")
    ∷ ticks 0 (at_minute 3) offline
    ∷ resumes 200000
    ∷ ticks 0 (at_minute 20) offline
    ∷ []

calls-IsValid_example : IsValid (calls initial script)
calls-IsValid_example = calls-IsValid initial script initial-IsValid

tick-feeds_example : feeds (tick 0 (at_minute 20) offline with_stuck).1 ≡ (
    not (restarts (tick 0 (at_minute 20) offline with_stuck).1)
    && (not
          (some_overdue (at_minute 20).now (at_loop 0 (at_minute 20) offline with_stuck).subsystems)
        || ltb 0 (at_loop 0 (at_minute 20) offline with_stuck).suspend_depth))
tick-feeds_example = tick-feeds 0 (at_minute 20) offline with_stuck

-- Two minutes in, an overdue link is warned of and the task watchdog is not fed.
starved : feeds (tick 0 (at_minute 2) offline with_stuck).1 ≡ false
unfolding tick sweep overdue_round
starved = refl

unrecovered-restarts_example : restarts (tick 0 (at_minute 20) offline with_stuck).1 ≡ true
unfolding refresh_links
unrecovered-restarts_example =
    unrecovered-restarts 0 (at_minute 20) offline with_stuck 6 stuck refl refl refl (omega arith)
      (omega arith) refl
