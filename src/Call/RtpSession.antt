-- ===== src/Call/RtpSession.antt =====
-- src/call/rtp_session.rs: the task that carries the audio of a call between its user, its codecs and
-- the UDP socket. The socket is an interface; a codec's packets are those of Media/Libraries.antt.
pub mod Task
pub mod Offered
pub mod Peer
pub mod Delivery
pub mod Quiet
pub mod Drained
use simple_sip_rs.Prelude.{
  ℕ, Bool, true, false, not, ◌||◌, ◌==◌, List, [], ◌∷◌, Option, none, some, get_elem?, take, Text,
  Outcome, ok, err, panic, ok_or, unwrap, ◌>>=◌, no_media, bad_address, bad_packet, send_failed,
  if◌then◌else◌,
}
use simple_sip_rs.Prelude.Word.{u16}
use simple_sip_rs.Config.{SocketAddr}
use simple_sip_rs.Channels.{Sender, Receiver}
use simple_sip_rs.Utils.{BidirectionalChannel, Channel}
use simple_sip_rs.Utils
use simple_sip_rs.Sdp.{SdpMedia, SdpSession, ExplicitlyTypedAddress, ip, fqdn, WebrtcSdp}
use simple_sip_rs.Media.Libraries.{MediaLib}
use simple_sip_rs.Media.Features.{Features}
use simple_sip_rs.Media.Offers.{ptime_of}
use simple_sip_rs.Media.TelephoneEvents.{Media, output_empty}
use simple_sip_rs.Media.Codecs.{
  Codec, Seeds, get_payload_type, can_handle_media, decode_payload, append_to_buffer,
  get_next_packet, get_codecs_from_sdp_session,
}
use simple_sip_rs.Call.Session.{SessionParameters}

-- A UDP socket: `bind` takes the local port.
pub record Udp : Type 1 where
  pub Socket : Type 0
  pub bind : ℕ → Option Socket
  pub send_to : Socket → Text → SocketAddr → Socket × Bool

module _ (l : MediaLib) (u : Udp) (tx : Sender Media) (rx : Receiver Media) where
  pub record RtpSession : Type 0 where
    pub audio_interval : ℕ  -- milliseconds
    pub udp_socket : u.Socket
    pub remote_addr : SocketAddr
    pub codecs : List (Codec l)
    pub media_channel : Channel tx rx
    pub notified_empty : Bool

  abbrev pub Step : Type 0
  Step = RtpSession × Outcome (Unit {0})

  abbrev pub remote_of : ℕ → Option ExplicitlyTypedAddress → Outcome SocketAddr
  remote_of port none = panic
  remote_of port (some (ip a)) = ok (record { ip = a; port = u16 port })
  remote_of port (some (fqdn _)) = err bad_address

  -- `interval` panics on a period of zero.
  abbrev pub period : ℕ → Outcome ℕ
  period n = if n == 0 then panic else ok n

  unfoldable pub new :
      WebrtcSdp → Features → Seeds l → Channel tx rx → SessionParameters → Outcome RtpSession
  new w features seeds media_channel params = do
    codecs ← get_codecs_from_sdp_session l w features seeds params.remote.sdp
    socket ← ok_or (u.bind params.local.port) bad_address
    media ← ok_or (get_elem? params.remote.sdp.media 0) no_media
    addr ← remote_of media.port params.remote.sdp.connection
    ptime ← period (ptime_of w media)
    ok (record {
      audio_interval = ptime;
      udp_socket = socket;
      remote_addr = addr;
      codecs = codecs;
      media_channel = media_channel;
      notified_empty = true;
    })

  -- The loops over the codecs: the first that fits is used, and the others stay.
  abbrev pub in_front :
      {A : Type 0} → List (Codec l) → Codec l × Outcome A → List (Codec l) × Outcome A
  in_front cs (c, o) = (c ∷ cs, o)

  abbrev pub behind :
      {A : Type 0} → Codec l → List (Codec l) × Outcome A → List (Codec l) × Outcome A
  behind c (cs, o) = (c ∷ cs, o)

  unfoldable pub append_first : List (Codec l) → Media → List (Codec l) × Outcome (Unit {0})
  append_first [] media = ([], ok tt)
  append_first (c ∷ cs) media =
      let later = append_first cs media in
      if can_handle_media l c media
      then in_front cs (append_to_buffer l c media)
      else behind c later

  unfoldable pub decode_first : List (Codec l) → ℕ → Text → List (Codec l) × Outcome (Option Media)
  decode_first [] payload_type payload = ([], ok none)
  decode_first (c ∷ cs) payload_type payload =
      let later = decode_first cs payload_type payload in
      if get_payload_type l c == payload_type
      then in_front cs (decode_payload l c payload)
      else behind c later

  abbrev with_codecs :
      {A : Type 0} → RtpSession → List (Codec l) × Outcome A → RtpSession × Outcome A
  with_codecs s (cs, o) = (record s { codecs = cs }, o)

  unfoldable pub receive_media : RtpSession → Media → Step
  receive_media s media = with_codecs s (append_first s.codecs media)

  unfoldable pub receive_packet : RtpSession → l.rtp.Packet → RtpSession × Outcome (Option Media)
  receive_packet s p =
      with_codecs s (decode_first s.codecs (l.rtp.payload_type p) (l.rtp.payload p))

  -- The packets of one codec: the first that cannot be marshalled or sent ends it.
  abbrev sent_or :
      u.Socket × Bool → (u.Socket → u.Socket × Outcome (Unit {0})) → u.Socket × Outcome (Unit {0})
  sent_or (socket, true) later = later socket
  sent_or (socket, false) later = (socket, err send_failed)

  abbrev send_marshalled :
      SocketAddr
      → u.Socket
      → Option Text
      → (u.Socket → u.Socket × Outcome (Unit {0}))
      → u.Socket × Outcome (Unit {0})
  send_marshalled addr socket none later = (socket, err bad_packet)
  send_marshalled addr socket (some b) later = sent_or (u.send_to socket b addr) later

  unfoldable pub send_packets :
      SocketAddr → List l.rtp.Packet → u.Socket → u.Socket × Outcome (Unit {0})
  send_packets addr [] socket = (socket, ok tt)
  send_packets addr (p ∷ ps) socket =
      send_marshalled addr socket (l.rtp.marshal p) (send_packets addr ps)

  -- The codecs in order; the result says whether any had a packet.
  abbrev Sending : Type 0
  Sending = u.Socket × List (Codec l) × Outcome Bool

  abbrev pub is_some : List l.rtp.Packet → Bool
  is_some [] = false
  is_some (_ ∷ _) = true

  abbrev pub joined : Bool → Codec l → Sending → Sending
  joined did c (socket, cs, ok later) = (socket, c ∷ cs, ok (did || later))
  joined did c (socket, cs, err e) = (socket, c ∷ cs, err e)
  joined did c (socket, cs, panic) = (socket, c ∷ cs, panic)

  abbrev pub after_packets :
      Bool
      → Codec l
      → List (Codec l)
      → u.Socket × Outcome (Unit {0})
      → (u.Socket → Sending)
      → Sending
  after_packets did c cs (socket, ok _) later = joined did c (later socket)
  after_packets did c cs (socket, err e) later = (socket, c ∷ cs, err e)
  after_packets did c cs (socket, panic) later = (socket, c ∷ cs, panic)

  abbrev pub send_codec :
      SocketAddr
      → List (Codec l)
      → u.Socket
      → Codec l × Outcome (List l.rtp.Packet)
      → (u.Socket → Sending)
      → Sending
  send_codec addr cs socket (c, ok packets) later =
      after_packets (is_some packets) c cs (send_packets addr packets socket) later
  send_codec addr cs socket (c, err e) later = (socket, c ∷ cs, err e)
  send_codec addr cs socket (c, panic) later = (socket, c ∷ cs, panic)

  unfoldable pub send_codecs : SocketAddr → List (Codec l) → u.Socket → Sending
  send_codecs addr [] socket = (socket, [], ok false)
  send_codecs addr (c ∷ cs) socket =
      send_codec addr cs socket (get_next_packet l c) (send_codecs addr cs)

  abbrev noted : RtpSession → Channel tx rx × Outcome (Unit {0}) → Step
  noted s (channel, ok _) = (record s { media_channel = channel; notified_empty = true }, ok tt)
  noted s (channel, err e) = (record s { media_channel = channel }, err e)
  noted s (channel, panic) = (record s { media_channel = channel }, panic)

  -- After the codecs: the user is told once that there is nothing more to send.
  abbrev pub notify : RtpSession → Bool → Step
  notify s true = (record s { notified_empty = false }, ok tt)
  notify s false =
      if s.notified_empty
      then (s, ok tt)
      else noted s (Utils.send tx rx s.media_channel output_empty)

  abbrev pub after_codecs : RtpSession → Sending → Step
  after_codecs s (socket, cs, ok did) = notify (record s { udp_socket = socket; codecs = cs }) did
  after_codecs s (socket, cs, err e) = (record s { udp_socket = socket; codecs = cs }, err e)
  after_codecs s (socket, cs, panic) = (record s { udp_socket = socket; codecs = cs }, panic)

  unfoldable pub send_next_packet : RtpSession → Step
  send_next_packet s = after_codecs s (send_codecs s.remote_addr s.codecs s.udp_socket)
