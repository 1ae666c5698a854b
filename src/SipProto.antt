-- ===== src/SipProto.antt =====
-- src/sip_proto. `get_allow_header` of mod.rs is in Allow.antt.
pub mod Decoder
pub mod Allow
pub mod Sdp
pub mod Register
pub mod Options
