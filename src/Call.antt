-- ===== src/Call.antt =====
-- src/call
pub mod Session
pub mod Dialog
pub mod Runtime
pub mod Handler
pub mod Outgoing
pub mod Incoming
pub mod RtpSession
pub mod Ongoing
