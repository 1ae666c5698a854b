-- ===== src/Media/Pcma.antt =====
-- src/media/pcma.rs
pub mod G711
pub mod Codec
pub mod Quality
