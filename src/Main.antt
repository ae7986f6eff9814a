-- ===== src/Main.antt =====
-- The main loop's own state (src/main.cpp).
pub mod Log
pub mod Buffered
pub mod Drained
pub mod Support
pub mod Window
pub mod Recovery
pub mod Indicator
pub mod Legacy
pub mod Commands
pub mod Authority
pub mod Once
pub mod Restart
pub mod Reboot
pub mod Dispatch
mod CommandExamples
mod Examples
