-- ===== src/Lock.antt =====
-- The cabinet lock (src/lock/lock_device.cpp): debounced pins, the state machine, and the unlock
-- command with its signed token.
pub mod State
pub mod Tick
pub mod Unlock
pub mod Telemetry
pub mod Pins
pub mod Moves
pub mod Authority
mod Examples
