-- ===== src/Media/Pcmu/Codec.antt =====
-- src/media/pcmu.rs: the codec of a call, over its sample coding.
use simple_sip_rs.Prelude.{ℕ, List, Option, Text, codes, Outcome}
use simple_sip_rs.Sdp.{SdpSession, WebrtcSdp}
use simple_sip_rs.Media.Libraries.{MediaLib}
use simple_sip_rs.Media.TelephoneEvents.{Media}
use simple_sip_rs.Media.G711Codec
use simple_sip_rs.Media.G711Codec.{G711Codec}
use simple_sip_rs.Media.Pcmu.G711.{encode, decode}

module _ (l : MediaLib) where
  abbrev pub PcmuCodec : Type 0
  PcmuCodec = G711Codec l

  unfoldable pub try_from_sdp_session : WebrtcSdp → ℕ × ℕ → SdpSession → Outcome (Option PcmuCodec)
  unfolding G711Codec.try_from_sdp_session
  try_from_sdp_session w seed s = G711Codec.try_from_sdp_session l w (codes "pcmu") seed s

  unfoldable pub decode_payload : PcmuCodec → Text → PcmuCodec × Outcome (Option Media)
  unfolding G711Codec.decode_payload
  decode_payload c payload = G711Codec.decode_payload l encode decode c payload

  unfoldable pub append_to_buffer : PcmuCodec → Media → PcmuCodec × Outcome (Unit {0})
  unfolding G711Codec.append_to_buffer
  append_to_buffer c media = G711Codec.append_to_buffer l c media

  unfoldable pub get_next_packet : PcmuCodec → PcmuCodec × Outcome (List l.rtp.Packet)
  unfolding G711Codec.get_next_packet
  get_next_packet c = G711Codec.get_next_packet l encode decode c
