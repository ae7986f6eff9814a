-- ===== src/Watchdog.antt =====
-- The health watchdog (src/watchdog/watchdog_manager.cpp): one record for each supervised
-- subsystem, a suspend depth for safe sections, and a periodic tick that warns, recovers,
-- reboots, or feeds the task watchdog.
-- `millis()` is an argument of each operation; `tick` reads the clock at several points and
-- takes each reading by itself. `ESP.restart()` does not return: a tick that calls it ends there.
pub mod State
pub mod Ops
pub mod Tick
pub mod Invariant
pub mod Safety
pub mod Escalation
mod Examples
