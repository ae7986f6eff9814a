-- ===== src/Time/Age.antt =====
-- How a synchronisation ages.
use forge_key.Prelude.{ℕ, ◌+◌, ◌/◌, ◌%◌, ◌<◌, ◌≡◌, ◌&&◌, arith, leb, u32}
use forge_key.Time.Clock.{Clock, on_time_sync, epoch_plausible, age_from_last_sync, tick, status}

age-on_time_sync :
    (t d : ℕ) (c : Clock)
    → 0 < t
    → t < 4294967296
    → age_from_last_sync (u32 (t + d)) (on_time_sync t c) ≡ d % 4294967296 / 1000
unfolding age_from_last_sync on_time_sync
age-on_time_sync t d c h k = ground arith

-- A synchronisation at a time other than 0 makes the clock valid for the time that is allowed, in
-- seconds, if the clock is plausible. The age is taken from the 32-bit uptime: it starts again at
-- 0 every 2 ^ 32 milliseconds, and a clock long out of date counts as valid again.
pub status-on_time_sync :
    (t d tick_ms epoch : ℕ) (c : Clock)
    → 0 < t
    → t < 4294967296
    → (status tick_ms (u32 (t + d)) epoch (on_time_sync t c)).1.clock_valid
      ≡ (epoch_plausible epoch && leb (d % 4294967296 / 1000) c.max_sync_age_s)
unfolding status on_time_sync tick
status-on_time_sync t d tick_ms epoch c h k = ground (arith, age-on_time_sync t d c h k)
