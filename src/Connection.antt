-- ===== src/Connection.antt =====
-- src/connection. call_connection.rs is in Call/Runtime.antt.
pub mod SocketData
pub mod Socket
