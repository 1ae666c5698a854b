-- ===== src/Tests/Ports.antt =====
-- Ports of two configurations.
use simple_sip_rs.Prelude.{◌-◌, ◌/◌, ◌≡◌, refl, arith}
use simple_sip_rs.Config.{Config}
use simple_sip_rs.Context.{SipContext, from_config}
use simple_sip_rs.Context.Ports.{port_of_call, port_of_call_wraps}
use simple_sip_rs.Tests.Library.{config}

abbrev top_config : Config
top_config = record config { rtp_port_start = 65530; rtp_port_end = 65535 }

abbrev context_of : Config → SipContext
context_of c = record { config = c; next_udp_port = c.rtp_port_start }

port_of_call_wraps_example : port_of_call ((65536 - 65530) / 2) (context_of top_config) ≡ 0
unfolding from_config
port_of_call_wraps_example =
    port_of_call_wraps top_config (context_of top_config) refl (omega arith) refl (omega arith)
