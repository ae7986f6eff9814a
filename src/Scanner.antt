-- ===== src/Scanner.antt =====
-- The BLE scanner (src/capabilities/ble_scanner/ble_scanner.cpp): its ring of known addresses, its
-- parser of beacons, and its scans.
pub mod Ring
pub mod Advert
pub mod Scan
pub mod Window
pub mod Devices
pub mod Calls
pub mod Invariant
pub mod Beacons
pub mod Repeats
mod Examples
