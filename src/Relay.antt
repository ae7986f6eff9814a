-- ===== src/Relay.antt =====
-- The power relay (src/capabilities/power_relay/power_relay.cpp): two latching channels that
-- survive a reboot, and the BL0942 meter behind a serial line. The build's defaults are taken:
-- the meter is enabled, with address 0.
pub mod Meter
pub mod Channels
pub mod Frames
pub mod Serial
pub mod Framing
pub mod Persistence
pub mod Setup
mod Examples
