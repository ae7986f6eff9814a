-- ===== src/EspLock.antt =====
-- The second lock firmware, a program of its own in C (src/esp32c6-lock/main).
pub mod State
pub mod Tick
pub mod Token
pub mod Orders
pub mod Validation
pub mod Dispatch
pub mod Lockout
pub mod Guard
pub mod Envelope
pub mod Trust
mod Examples
