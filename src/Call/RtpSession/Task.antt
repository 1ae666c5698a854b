-- ===== src/Call/RtpSession/Task.antt =====
-- src/call/rtp_session.rs: a round of the session's loop, the loop, and the task that makes and runs
-- a session.
use simple_sip_rs.Prelude.{
  List, [], ◌∷◌, Option, none, some, take, Text, Outcome, ok, err, panic, bad_packet,
}
use simple_sip_rs.Channels.{Sender, Receiver}
use simple_sip_rs.Utils.{BidirectionalChannel, Channel}
use simple_sip_rs.Utils
use simple_sip_rs.Sdp.{WebrtcSdp}
use simple_sip_rs.Media.Libraries.{MediaLib}
use simple_sip_rs.Media.Features.{Features}
use simple_sip_rs.Media.TelephoneEvents.{Media}
use simple_sip_rs.Media.Codecs.{Seeds}
use simple_sip_rs.Call.Session.{SessionParameters}
use simple_sip_rs.Call.RtpSession.{
  Udp, RtpSession, Step, new, receive_media, receive_packet, send_next_packet,
}

-- What a round of the loop takes: the interval's tick, a datagram or the socket's error, or a message
-- of the user.
pub data RtpReady : Type 0 where
  tick media_ready : RtpReady
  datagram : Option Text → RtpReady

module _ (l : MediaLib) (u : Udp) (tx : Sender Media) (rx : Receiver Media) where
  abbrev Session : Type 0
  Session = RtpSession l u tx rx

  abbrev pub forwarded : Session → Channel tx rx × Outcome (Unit {0}) → Step l u tx rx
  forwarded s (channel, o) = (record s { media_channel = channel }, o)

  abbrev pub forward : Session × Outcome (Option Media) → Step l u tx rx
  forward (s, ok none) = (s, ok tt)
  forward (s, ok (some media)) = forwarded s (Utils.send tx rx s.media_channel media)
  forward (s, err e) = (s, err e)
  forward (s, panic) = (s, panic)

  abbrev pub on_packet : Session → Option l.rtp.Packet → Step l u tx rx
  on_packet s none = (s, err bad_packet)
  on_packet s (some p) = forward (receive_packet l u tx rx s p)

  abbrev pub on_media : Session → Option Media → Step l u tx rx
  on_media s none = (s, ok tt)
  on_media s (some media) = receive_media l u tx rx s media

  -- The buffer for a datagram has 512 bytes; the rest of a longer one is lost.
  unfoldable pub handle_next : Session → RtpReady → Step l u tx rx
  handle_next s tick = send_next_packet l u tx rx s
  handle_next s (datagram none) = (s, ok tt)
  handle_next s (datagram (some b)) = on_packet s (l.rtp.unmarshal (take 512 b))
  handle_next s media_ready =
      let (channel, m) = Utils.recv tx rx s.media_channel in
      on_media (record s { media_channel = channel }) m

  abbrev pub go_on : Step l u tx rx → (Session → Step l u tx rx) → Step l u tx rx
  go_on (s, ok _) later = later s
  go_on (s, err e) later = later s
  go_on (s, panic) later = (s, panic)

  -- The loop over a schedule: errors are logged, and a panic ends the task.
  unfoldable pub run : Session → List RtpReady → Step l u tx rx
  run s [] = (s, ok tt)
  run s (ready ∷ later) = go_on (handle_next s ready) (λ s'. run s' later)

  abbrev launched : Outcome Session → List RtpReady → Outcome (Unit {0})
  launched (ok s) schedule = (run s schedule).1
  launched (err e) schedule = err e
  launched panic schedule = panic

  unfoldable pub rtp_task :
      WebrtcSdp
      → Features
      → Seeds l
      → Channel tx rx
      → SessionParameters
      → List RtpReady
      → Outcome (Unit {0})
  rtp_task w features seeds media_channel params schedule =
      launched (new l u tx rx w features seeds media_channel params) schedule
