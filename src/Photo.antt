-- ===== src/Photo.antt =====
-- The photo uploader (src/photo_upload/uploader.cpp, uploader.h).
pub mod Uploader
pub mod Backoff
mod Examples
