-- ===== src/Watchdog/Tick.antt =====
-- `tick`: the loop over the subsystems, with its warnings, recoveries and the reboot.
use forge_key.Prelude.{
  ℕ, suc, ◌+◌, Bool, true, false, not, ◌&&◌, ◌||◌, Option, none, some, List, [], ◌∷◌, ◌++◌, ltb,
  leb, ◌==◌, if◌then◌else◌, elapsed, u32,
}
use forge_key.Watchdog.State.{
  wifi, mqtt, SubsystemState, Watchdog, warning_interval_ms, reboot_after_ms,
}
use forge_key.Watchdog.Ops.{begin, mark_healthy, healthy_cell}

-- What a tick does to the outside: the `action` of a published warning, feeding the task
-- watchdog, and the restart of the device. A warning carries its subsystem's index.
pub data WarningAction : Type 0 where
  subsystem_restarted deferred_safe_guard warn device_reboot : WarningAction

pub data Effect : Type 0 where
  publish_warning : ℕ → WarningAction → Effect
  reset_task_wdt : Effect
  esp_restart : Effect

-- The clock readings of one tick: `now`, then those inside `markHealthy` for WiFi, for MQTT, and
-- for a recovered subsystem.
pub record Readings : Type 0 where
  pub now : ℕ
  pub wifi_ms : ℕ
  pub mqtt_ms : ℕ
  pub recovered_ms : ℕ → ℕ

-- The outside of one tick: is WiFi connected, is MQTT, and the recovery callback, if one is set.
pub record World : Type 0 where
  pub wifi_connected : Bool
  pub mqtt_connected : Bool
  pub recover : Option (ℕ → Bool)

-- g_suspendDepth == 0 && g_recoveryCallback, and then what the callback says
abbrev pub try_recover : ℕ → Option (ℕ → Bool) → ℕ → Bool
try_recover depth none i = false
try_recover depth (some callback) i = depth == 0 && callback i

abbrev pub is_overdue : ℕ → SubsystemState → Bool
is_overdue now c = c.enabled && not c.busy && ltb c.timeout_ms (elapsed now c.last_healthy_ms)

-- The marks on an overdue subsystem.
abbrev note_overdue : ℕ → SubsystemState → SubsystemState
note_overdue now c = record c {
  first_overdue_ms = if c.first_overdue_ms == 0 then now else c.first_overdue_ms;
  overdue = true;
}

abbrev pub warning_due : ℕ → SubsystemState → Bool
warning_due now c =
    c.last_warning_ms == 0 || leb warning_interval_ms (elapsed now c.last_warning_ms)

-- The warning branch: count it, try to recover, and publish what happened.
unfoldable pub warn_cell : Readings → World → ℕ → ℕ → SubsystemState → SubsystemState × List Effect
warn_cell r world depth i c =
    if warning_due r.now c
    then (let warned = record c {
      last_warning_ms = r.now;
      warning_count = u32 (c.warning_count + 1);
    } in
        if try_recover depth world.recover i
        then (
          healthy_cell (r.recovered_ms i)
              (record warned { recovery_count = u32 (c.recovery_count + 1) }),
          publish_warning i subsystem_restarted ∷ [],
        )
        else (warned, publish_warning i (if ltb 0 depth then deferred_safe_guard else warn) ∷ []))
    else (c, [])

-- What one round of the loop yields: the cell, the effects, and whether the device restarts.
pub record Round : Type 0 where
  pub cell : SubsystemState
  pub effects : List Effect
  pub restarted : Bool

unfoldable pub overdue_round : Readings → World → ℕ → ℕ → SubsystemState → Round
unfolding warn_cell
overdue_round r world depth i c =
    let (warned, published) = warn_cell r world depth i (note_overdue r.now c) in
    if depth == 0 && leb reboot_after_ms (elapsed r.now warned.first_overdue_ms)
    then record {
      cell = warned;
      effects = published ++ publish_warning i device_reboot ∷ esp_restart ∷ [];
      restarted = true;
    }
    else record { cell = warned; effects = published; restarted = false }

-- The rounds from one index on: the cells, the effects, `anyUnsafeOverdue`, and the restart.
pub record Sweep : Type 0 where
  pub cells : List SubsystemState
  pub effects : List Effect
  pub any_overdue : Bool
  pub restarted : Bool

unfoldable pub sweep : Readings → World → ℕ → ℕ → List SubsystemState → Sweep
sweep r world depth i [] = record {
  cells = [];
  effects = [];
  any_overdue = false;
  restarted = false;
}
sweep r world depth i (c ∷ cs) =
    let rest = sweep r world depth (suc i) cs in
    let round = overdue_round r world depth i c in
    if is_overdue r.now c
    then (if round.restarted
        then record {
          cells = round.cell ∷ cs;
          effects = round.effects;
          any_overdue = true;
          restarted = true;
        }
        else record {
          cells = round.cell ∷ rest.cells;
          effects = round.effects ++ rest.effects;
          any_overdue = true;
          restarted = rest.restarted;
        })
    else record rest { cells = c ∷ rest.cells }

-- The part of `tick` before the loop.
unfoldable pub refresh_links : Readings → World → Watchdog → Watchdog
unfolding mark_healthy
refresh_links r world w =
    let w1 = if world.wifi_connected then mark_healthy r.wifi_ms wifi w else w in
    if world.mqtt_connected then mark_healthy r.mqtt_ms mqtt w1 else w1

-- The part after the loop; a restart has ended the tick before it.
abbrev feed : ℕ → Sweep → List Effect
feed depth s =
    if not s.restarted && (not s.any_overdue || ltb 0 depth)
    then s.effects ++ reset_task_wdt ∷ []
    else s.effects

-- `begin` reads the clock by itself when the tick is the first call.
unfoldable pub tick : ℕ → Readings → World → Watchdog → Watchdog × List Effect
unfolding begin refresh_links
tick begin_ms r world w =
    let started = if w.started then w else begin begin_ms w in
    let linked = refresh_links r world started in
    let s = sweep r world linked.suspend_depth 0 linked.subsystems in
    (record linked { subsystems = s.cells }, feed linked.suspend_depth s)
