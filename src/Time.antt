-- ===== src/Time.antt =====
-- The clock's validity (src/time/time_sync.cpp).
pub mod Clock
pub mod Age
