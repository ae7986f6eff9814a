-- ===== src/Time/Clock.antt =====
-- `begin`, `onTimeSync`, `tick` and `status`. The seconds of the C library's clock are an argument.
use forge_key.Prelude.{ℕ, ◌/◌, Bool, true, not, ◌&&◌, ◌||◌, leb, ◌==◌, if◌then◌else◌, elapsed}

pub record Clock : Type 0 where
  pub max_sync_age_s : ℕ
  pub last_sync_uptime_ms : ℕ
  pub ntp_synced : Bool

pub record Status : Type 0 where
  pub clock_valid : Bool
  pub ntp_synced : Bool
  pub epoch_time : ℕ
  pub monotonic_uptime_ms : ℕ
  pub last_sync_age_s : ℕ

unfoldable pub on_time_sync : ℕ → Clock → Clock
on_time_sync now_ms c = record c { last_sync_uptime_ms = now_ms; ntp_synced = true }

abbrev pub epoch_plausible : ℕ → Bool
epoch_plausible value = leb 1704067200 value

-- UINT32_MAX where there was no synchronisation.
unfoldable pub age_from_last_sync : ℕ → Clock → ℕ
age_from_last_sync now_ms c =
    if not c.ntp_synced || c.last_sync_uptime_ms == 0
    then 4294967295
    else elapsed now_ms c.last_sync_uptime_ms / 1000

unfoldable pub tick : ℕ → ℕ → Clock → Clock
tick now epoch c =
    if epoch_plausible epoch && not c.ntp_synced
    then record c { last_sync_uptime_ms = now; ntp_synced = true }
    else c

unfoldable pub begin : ℕ → ℕ → ℕ → Clock → Clock
unfolding tick
begin max_sync_age_s now epoch c = tick now epoch (record c { max_sync_age_s = max_sync_age_s })

-- The clock is read once more after the tick.
unfoldable pub status : ℕ → ℕ → ℕ → Clock → Clock × Status
unfolding tick age_from_last_sync
status tick_ms now_ms epoch c =
    let ticked = tick tick_ms epoch c in
    let age = age_from_last_sync now_ms ticked in
    (
      ticked,
      record {
        clock_valid = epoch_plausible epoch && ticked.ntp_synced && leb age ticked.max_sync_age_s;
        ntp_synced = ticked.ntp_synced;
        epoch_time = epoch;
        monotonic_uptime_ms = now_ms;
        last_sync_age_s = if age == 4294967295 then 0 else age;
      },
    )
