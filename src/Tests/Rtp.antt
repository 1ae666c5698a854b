-- ===== src/Tests/Rtp.antt =====
-- An RTP session with the concrete libraries.
use simple_sip_rs.Prelude.{
  ◌≡◌, refl, ◌⊎◌, ◌<◌, ℕ, false, List, [], ◌∷◌, ◌++◌, replicate, ok, err, send_failed, arith, some,
}
use simple_sip_rs.Config.{v4}
use simple_sip_rs.Media.Opus as Opus
use simple_sip_rs.Media.Opus.{OpusCodec}
use simple_sip_rs.Media.Opus.Drain as Drain
use simple_sip_rs.Media.Opus.Order as Order
use simple_sip_rs.Media.Opus.Order.{Act, give, tick, audible, samples, audio_kept}
use simple_sip_rs.Media.TelephoneEvents.{audio, output_empty}
use simple_sip_rs.Utils
use simple_sip_rs.Media.Codecs as Codecs
use simple_sip_rs.Media.Codecs.{Codec, opus, get_payload_type, decode_payload}
use simple_sip_rs.Call.RtpSession.{RtpSession, send_next_packet, send_codecs, send_packets}
use simple_sip_rs.Call.RtpSession.Task.{datagram, handle_next}
use simple_sip_rs.Call.RtpSession.Delivery.{told, datagram_forwarded}
use simple_sip_rs.Call.RtpSession.Quiet.{ticks, trace, busy, has_packets, notifications}
use simple_sip_rs.Tests.MediaLib.{
  media_lib, media_lib-IsMediaLib, udp, media_tx, media_rx, media_tx-IsSender, open_media,
}

-- Two samples make a packet, and there are three.
abbrev pub codec : OpusCodec media_lib
codec = record {
  ptime = 2;
  payload_type = 107;
  sample_rate = 1000;
  channels = 1;
  decoder = 1000;
  encoder = [];
  packetizer = 107;
  buffer_out = 7 ∷ 8 ∷ 9 ∷ [];
}

abbrev pub session : RtpSession media_lib udp media_tx media_rx
session = record {
  audio_interval = 2;
  udp_socket = [];
  remote_addr = record { ip = v4 3; port = 9000 };
  codecs = opus codec ∷ [];
  media_channel = record { sender = open_media; receiver = [] };
  notified_empty = false;
}

ticks-drain_example :
    (pad : ℕ) × (pad < 2)
    × ((Drain.ticks media_lib 2 codec).buffer_out ≡ [])
    × ((Drain.ticks media_lib 2 codec).encoder ≡ [] ++ (7 ∷ 8 ∷ 9 ∷ [] ++ replicate pad 0))
    × ((Opus.get_next_packet media_lib (Drain.ticks media_lib 2 codec)).1 ≡ ok [])
ticks-drain_example =
    Drain.ticks-drain media_lib 2 codec media_lib-IsMediaLib (omega arith) (omega arith)

abbrev acts : List Act
acts = tick ∷ give (audio (0 ∷ 5 ∷ [])) ∷ tick ∷ tick ∷ give (audio (6 ∷ [])) ∷ []

audio_kept_example :
    audible (samples media_lib (Order.run media_lib acts codec))
    ≡ audible ((7 ∷ 8 ∷ 9 ∷ []) ++ (0 ∷ 5 ∷ 6 ∷ []))
audio_kept_example = audio_kept media_lib acts codec media_lib-IsMediaLib

notifications_example :
    told media_lib udp media_tx media_rx (ticks media_lib udp media_tx media_rx 3 session)
    ≡ [] ++ replicate 1 output_empty
unfolding trace busy has_packets send_next_packet send_codecs send_packets Opus.get_next_packet
    Codecs.get_next_packet Utils.send
notifications_example =
    notifications media_lib udp media_tx media_rx 3 session media_tx-IsSender
      (refl, (refl, (refl, tt)))

datagram_forwarded_example :
    let (s', res) =
      handle_next media_lib udp media_tx media_rx session (datagram (some (107 ∷ 5 ∷ 6 ∷ []))) in
    (s'.codecs ≡ [] ++ opus codec ∷ [])
    × (s'.notified_empty ≡ false)
    × (((res ≡ ok tt) × (told media_lib udp media_tx media_rx s' ≡ [] ++ audio (5 ∷ 6 ∷ []) ∷ []))
        ⊎ ((res ≡ err send_failed) × (told media_lib udp media_tx media_rx s' ≡ [])))
unfolding decode_payload Opus.decode_payload get_payload_type
datagram_forwarded_example =
    datagram_forwarded media_lib udp media_tx media_rx session (107 ∷ 5 ∷ 6 ∷ []) (107, 5 ∷ 6 ∷ [])
      [] [] (opus codec) (audio (5 ∷ 6 ∷ [])) media_tx-IsSender refl refl tt refl refl
