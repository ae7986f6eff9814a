-- ===== src/Main/Support.antt =====
-- Support mode and the rapid checks for updates: windows of time on the 32-bit uptime, where 0
-- stands for no window. Each reading of `millis()` is an argument.
use forge_key.Prelude.{
  ℕ, ◌+◌, ◌*◌, ◌/◌, Bool, true, false, not, ◌&&◌, ◌||◌, Option, none, some, ltb, ◌==◌,
  if◌then◌else◌, u32, elapsed,
}

-- (long)(nowMs - targetMs) >= 0
abbrev pub time_reached : ℕ → ℕ → Bool
time_reached now_ms target_ms = ltb (elapsed now_ms target_ms) 2147483648

-- g_supportModeUntilMs, g_lastSupportHeartbeatMs and the debug output of the serial port
pub record Support : Type 0 where
  pub until_ms : ℕ
  pub last_heartbeat_ms : ℕ
  pub debug_output : Bool

unfoldable pub stop_support_mode : Support → Support
stop_support_mode s = record s { until_ms = 0; debug_output = false }

unfoldable pub support_mode_active : ℕ → Support → Support × Bool
support_mode_active now s =
    if s.until_ms == 0
    then (s, false)
    else if time_reached now s.until_ms
    then (record s { until_ms = 0; debug_output = false }, false)
    else (s, true)

-- The time is read once for the test, and once more.
unfoldable pub support_mode_remaining_s : ℕ → ℕ → Support → Support × ℕ
unfolding support_mode_active
support_mode_remaining_s tested now s =
    let active = support_mode_active tested s in
    if active.1 then (active.0, u32 (elapsed active.0.until_ms now + 999) / 1000) else (active.0, 0)

abbrev pub default_duration_s : ℕ
default_duration_s = 900

abbrev pub max_duration_s : ℕ
max_duration_s = 3600

abbrev pub clamp_duration : ℕ → ℕ
clamp_duration duration_s =
    let asked = if duration_s == 0 then default_duration_s else duration_s in
    if ltb max_duration_s asked then max_duration_s else asked

unfoldable pub set_support_mode_duration : ℕ → ℕ → Support → Support
set_support_mode_duration duration_s now s = record {
  until_ms = u32 (now + clamp_duration duration_s * 1000);
  last_heartbeat_ms = 0;
  debug_output = true;
}

-- The seconds that the heartbeat prints, if it prints one; the time is read four times.
unfoldable pub tick_support_mode : Bool → ℕ → ℕ → ℕ → ℕ → Support → Support × Option ℕ
unfolding support_mode_active support_mode_remaining_s
tick_support_mode mqtt_connected tested now printed_tested printed_now s =
    let active = support_mode_active tested s in
    let beats = record active.0 { last_heartbeat_ms = now } in
    let remaining = support_mode_remaining_s printed_tested printed_now beats in
    if not active.1
    then (active.0, none)
    else if not (active.0.last_heartbeat_ms == 0)
        && ltb (elapsed now active.0.last_heartbeat_ms) 30000
    then (active.0, none)
    else if mqtt_connected
    then (remaining.0, some remaining.1)
    else (beats, none)

-- g_otaRapidCheckUntilMs and g_nextOtaRapidCheckMs
pub record RapidCheck : Type 0 where
  pub until_ms : ℕ
  pub next_ms : ℕ

unfoldable pub extend_ota_rapid_checking : ℕ → RapidCheck → RapidCheck
extend_ota_rapid_checking now r =
    let new_deadline = u32 (now + 900000) in
    record {
      until_ms =
          if r.until_ms == 0 || time_reached now r.until_ms || time_reached new_deadline r.until_ms
          then new_deadline
          else r.until_ms;
      next_ms = now;
    }

-- The state, and whether the firmware subscription is refreshed.
unfoldable pub tick_ota_rapid_checking : Bool → ℕ → RapidCheck → RapidCheck × Bool
tick_ota_rapid_checking mqtt_connected now r =
    if r.until_ms == 0
    then (r, false)
    else if time_reached now r.until_ms
    then (record r { until_ms = 0 }, false)
    else if not mqtt_connected || not (time_reached now r.next_ms)
    then (r, false)
    else (record r { next_ms = u32 (now + 60000) }, true)
