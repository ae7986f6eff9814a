-- ===== src/Badge.antt =====
-- The badge reader (src/capabilities/badge_reader/badge_reader.cpp, badge_reader.h).
pub mod Reader
pub mod Hex
pub mod Reference
pub mod Taps
mod Examples
