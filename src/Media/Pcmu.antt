-- ===== src/Media/Pcmu.antt =====
-- src/media/pcmu.rs
pub mod G711
pub mod Codec
pub mod Quality
