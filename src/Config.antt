-- ===== src/Config.antt =====
-- src/config.rs: the `Config` record. What it builds for SIP messages is in Config/Headers.antt.
pub mod Headers
use simple_sip_rs.Prelude.{ℕ, Text}

-- Addresses of `std::net`; an IP address is its version and its bits.
pub data IpAddr : Type 0 where
  v4 : ℕ → IpAddr
  v6 : ℕ → IpAddr

pub record SocketAddr : Type 0 where
  pub ip : IpAddr
  pub port : ℕ  -- u16

pub record Config : Type 0 where
  pub server_addr : SocketAddr
  pub own_addr : SocketAddr
  pub username : Text
  pub password : Text
  pub rtp_port_start : ℕ  -- u16
  pub rtp_port_end : ℕ  -- u16
