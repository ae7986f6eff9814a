-- ===== src/Ble.antt =====
-- The BLE configuration that the server sends (src/config/ble_desired_state.cpp): its clamps and
-- its lists of addresses.
pub mod Lists
pub mod Config
pub mod Limits
pub mod Identity
mod Examples
