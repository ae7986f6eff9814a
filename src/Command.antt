-- ===== src/Command.antt =====
-- Validation of signed commands (src/security/command_validation.cpp): the replay cache, the
-- authenticators, and the checks in front of them.
pub mod Replay
pub mod Auth
pub mod Validate
pub mod Ring
pub mod Stored
pub mod Envelope
pub mod Genuine
pub mod Soundness
pub mod Authentic
pub mod Repeat
pub mod Examples
