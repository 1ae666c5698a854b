-- ===== src/Tests/Peer.antt =====
-- A session with a peer that offers PCMU and keys, and a packet that it did not offer.
use simple_sip_rs.Prelude.{◌≡◌, refl, true, List, [], ◌∷◌, some, ok, text_eq}
use simple_sip_rs.Config.{v4}
use simple_sip_rs.Utils.{Channel}
use simple_sip_rs.Media.Offers.{to_lowercase, find_rtpmap, find_codec, ptime_of}
use simple_sip_rs.Media.Pcmu.Codec as Pcmu
use simple_sip_rs.Media.Pcma.Codec as Pcma
use simple_sip_rs.Media.TelephoneEvents as TelephoneEvents
use simple_sip_rs.Media.Codecs.{get_codecs_from_sdp_session}
use simple_sip_rs.Media.Codecs.Negotiation.{AllOffered}
use simple_sip_rs.Call.Session.{SessionParameters}
use simple_sip_rs.Call.RtpSession.{RtpSession, new}
use simple_sip_rs.Call.RtpSession.Task.{RtpReady, tick, datagram, handle_next, run}
use simple_sip_rs.Call.RtpSession.Peer.{unoffered_ignored}
use simple_sip_rs.Tests.Library.{simple_sdp}
use simple_sip_rs.Tests.Calls.{session}
use simple_sip_rs.Tests.Codecs.{no_opus, seeds, remote, negotiated}
use simple_sip_rs.Tests.MediaLib.{media_lib, udp, media_tx, media_rx, open_media}

abbrev params : SessionParameters
params = record session { remote = record session.remote { sdp = remote } }

abbrev channel : Channel media_tx media_rx
channel = record { sender = open_media; receiver = [] }

abbrev made : RtpSession media_lib udp media_tx media_rx
made = record {
  audio_interval = 20;
  udp_socket = [];
  remote_addr = record { ip = v4 2; port = 9000 };
  codecs = negotiated;
  media_channel = channel;
  notified_empty = true;
}

abbrev schedule : List RtpReady
schedule = tick ∷ datagram (some (0 ∷ 5 ∷ [])) ∷ []

unoffered_ignored_example :
    let s' = (run media_lib udp media_tx media_rx made schedule).0 in
    AllOffered media_lib remote s'.codecs
    × (handle_next media_lib udp media_tx media_rx s' (datagram (some (18 ∷ 1 ∷ []))) ≡ (s', ok tt))
unfolding new get_codecs_from_sdp_session Pcmu.try_from_sdp_session Pcma.try_from_sdp_session
    TelephoneEvents.try_from_sdp find_codec find_rtpmap to_lowercase text_eq ptime_of
unoffered_ignored_example =
    unoffered_ignored media_lib udp media_tx media_rx simple_sdp no_opus seeds channel params made
      schedule (18 ∷ 1 ∷ []) (18, 1 ∷ []) refl refl refl
