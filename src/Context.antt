-- ===== src/Context.antt =====
-- src/context.rs: the context that hands out local RTP ports.
pub mod Ports
use simple_sip_rs.Prelude.{ℕ, ◌+◌, if◌then◌else◌, ltb, Outcome, ok, err, bad_port_range}
use simple_sip_rs.Prelude.Word.{u16}
use simple_sip_rs.Config.{Config}

pub record SipContext : Type 0 where
  pub config : Config
  pub next_udp_port : ℕ  -- u16

unfoldable pub from_config : Config → Outcome SipContext
from_config config =
    if ltb config.rtp_port_end config.rtp_port_start
    then err bad_port_range
    else ok (record { config = config; next_udp_port = config.rtp_port_start })

-- The new context and the port. The addition wraps, as it does in a release build.
unfoldable pub get_next_udp_port : SipContext → SipContext × ℕ
get_next_udp_port c =
    let next : ℕ = u16 (c.next_udp_port + 2) in
    (
      record c {
        next_udp_port = if ltb c.config.rtp_port_end next then c.config.rtp_port_start else next;
      },
      c.next_udp_port,
    )
