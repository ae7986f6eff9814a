-- ===== src/Ota.antt =====
-- Updates over the air (src/ota/ota_updater.cpp).
pub mod Strings
pub mod Version
pub mod Rollout
pub mod Spec
pub mod Policy
pub mod Allowed
pub mod Url
pub mod Printed
pub mod Digest
pub mod Download
pub mod Rounds
pub mod Signature
pub mod Apply
pub mod Installed
pub mod Tally
pub mod Failure
pub mod Stable
pub mod Examples
