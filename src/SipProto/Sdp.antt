-- ===== src/SipProto/Sdp.antt =====
-- src/sip_proto/sdp.rs: the session description that the client offers or answers with.
pub mod Offer
use simple_sip_rs.Prelude.{ℕ, [], ◌∷◌, ◌++◌, some, codes, Outcome, ok, ◌>>=◌}
use simple_sip_rs.Config.{Config}
use simple_sip_rs.Sdp.{SdpSession, SdpMedia, WebrtcSdp, ip, audio, rtp_avp, sendrecv, rtcp_mux}
use simple_sip_rs.Media.Features.{Features, populate_sdp_media_from_codecs, add_attribute}

-- `SdpMedia::new` of the media line, with no formats yet.
abbrev pub media_line : ℕ → SdpMedia
media_line rtp_port = record {
  media = audio;
  port = rtp_port;
  port_count = 0;
  proto = rtp_avp;
  formats = [];
  attributes = [];
}

-- The session before the media are added.
abbrev pub bare_session : Config → SdpSession
bare_session config = record {
  version = 0;
  origin = record {
    username = codes "Z";
    session_id = 0;
    session_version = 1234;
    unicast_addr = ip config.own_addr.ip;
  };
  session = codes "Z";
  connection = some (ip config.own_addr.ip);
  timing = some (record { start = 0; stop = 0 });
  media = [];
}

unfoldable pub generate_sdp_new : WebrtcSdp → Features → Config → ℕ → Outcome SdpSession
generate_sdp_new w features config rtp_port = do
  m1 ← populate_sdp_media_from_codecs w features (media_line rtp_port)
  m2 ← add_attribute w sendrecv m1
  m3 ← add_attribute w rtcp_mux m2
  let s = bare_session config
  ok (record s { media = s.media ++ m3 ∷ [] })
