-- ===== src/Tests/Codecs.antt =====
-- Session descriptions and buffers that the codecs read.
use simple_sip_rs.Prelude.{◌≡◌, refl, true, false, List, [], ◌∷◌, map, take, drop, none, codes, ok}
use simple_sip_rs.Sdp.{Rtpmap, rtpmap, SdpMedia, SdpSession}
use simple_sip_rs.SipProto.Sdp.{media_line, bare_session}
use simple_sip_rs.SipProto.Sdp.Offer.{offered_media, payload_types}
use simple_sip_rs.Media.Features.{Features}
use simple_sip_rs.Media.G711Codec.{G711Codec, packed, get_next_packet}
use simple_sip_rs.Media.G711Codec.Buffer.{packet_unpadded}
use simple_sip_rs.Media.Pcmu.G711 as Mu
use simple_sip_rs.Media.Codecs.{
  Codec, pcmu, telephone_events, get_payload_type, Seeds, get_codecs_from_sdp_session,
}
use simple_sip_rs.Media.Codecs.Agreement.{offer_read_back}
use simple_sip_rs.Tests.Library.{simple_sdp, config}
use simple_sip_rs.Tests.MediaLib.{media_lib}

abbrev pub no_opus : Features
no_opus = record { opus = false; pcmu = true; pcma = true }

abbrev all_codecs : Features
all_codecs = record { opus = true; pcmu = true; pcma = true }

abbrev pub seeds : Seeds media_lib
seeds = record { of_opus = (1, 1); of_pcmu = (2, 2); of_pcma = (3, 3) }

-- A peer that offers PCMU, in capital letters, and keys.
abbrev mu : Rtpmap
mu = record { payload_type = 0; codec_name = codes "PCMU"; frequency = 8000; channels = none }

abbrev keys : Rtpmap
keys = record {
  payload_type = 96;
  codec_name = codes "telephone-event";
  frequency = 8000;
  channels = none;
}

abbrev remote_media : SdpMedia
remote_media = record (media_line 9000) { attributes = rtpmap mu ∷ rtpmap keys ∷ [] }

abbrev pub remote : SdpSession
remote = record (bare_session config) { media = remote_media ∷ [] }

abbrev pub mu_codec : G711Codec media_lib
mu_codec = record {
  ptime = 20;
  payload_type = 0;
  sample_rate = 8000;
  packetizer = 0;
  buffer_out = [];
}

abbrev pub negotiated : List (Codec media_lib)
negotiated = pcmu mu_codec ∷ telephone_events (record { payload_type = 96; pressed_keys = [] }) ∷ []

offer_read_back_example :
    let s = record (bare_session config) { media = offered_media all_codecs 20480 ∷ [] } in
    (cs : List (Codec media_lib)) × (get_codecs_from_sdp_session media_lib simple_sdp all_codecs
        seeds s
      ≡ ok cs)
    × (map (get_payload_type media_lib) cs ≡ payload_types all_codecs)
offer_read_back_example =
    offer_read_back media_lib simple_sdp seeds config 20480 all_codecs 48000 [] refl refl

-- Packets of one millisecond, and fewer samples than one takes.
abbrev short_codec : G711Codec media_lib
short_codec = record mu_codec { ptime = 1; buffer_out = 1000 ∷ 2000 ∷ 3000 ∷ [] }

packet_unpadded_example :
    get_next_packet media_lib Mu.encode Mu.decode short_codec
    ≡ packed media_lib
        (record short_codec { buffer_out = drop 96 short_codec.buffer_out })
        (media_lib.rtp.packetize 0 (map Mu.encode (take 96 short_codec.buffer_out)) 8000)
packet_unpadded_example = packet_unpadded media_lib Mu.encode Mu.decode short_codec
