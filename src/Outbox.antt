-- ===== src/Outbox.antt =====
-- The outbound queue of the MQTT client (src/mqtt/mqtt_client.cpp): eight slots for publishes
-- that could not be written at once, with critical ones kept in flash across a reboot.
-- `outboundQueue[0 .. outboundQueueCount)` is a list, oldest first.
pub mod Message
pub mod Flash
pub mod Queue
pub mod Backoff
pub mod Reconnect
pub mod Priority
pub mod Stored
pub mod Service
pub mod Sync
pub mod Examples
