-- ===== src/StatusLed.antt =====
-- The status LED (src/capabilities/status_led/status_led.cpp): blink patterns, the operator's
-- override and the flash for a message.
pub mod Pattern
pub mod Led
pub mod Tick
pub mod Calls
pub mod Steady
pub mod Override
pub mod Shown
pub mod Phases
mod Examples
