-- ===== src/Sip.antt =====
-- The SIP messages of the crate `rsip`, as the repository builds them and takes them apart, and
-- the crate's operations as an interface.
mod Types
mod Library
pub use Types.*
pub use Library.*
