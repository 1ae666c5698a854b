-- ===== src/Media.antt =====
-- src/media
pub mod Pcmu
pub mod Pcma
pub mod Libraries
pub mod Offers
pub mod G711Codec
pub mod Codecs
pub mod Opus
pub mod Features
pub mod TelephoneEvents
