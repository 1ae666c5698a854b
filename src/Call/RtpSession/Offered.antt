-- ===== src/Call/RtpSession/Offered.antt =====
-- What the session of src/call/rtp_session.rs keeps of its codecs from the making to the end.
use simple_sip_rs.Prelude.{
  ℕ, sym, inl, inr, Bool, ◌==◌, List, [], ◌∷◌, Option, none, some, take, Text, Outcome, ok, err,
  panic, subst, Each, Bool-cases,
}
use simple_sip_rs.Config.{SocketAddr}
use simple_sip_rs.Channels.{Sender, Receiver}
use simple_sip_rs.Utils as Utils
use simple_sip_rs.Utils.{Channel}
use simple_sip_rs.Media.Libraries.{MediaLib}
use simple_sip_rs.Media.TelephoneEvents.{Media}
use simple_sip_rs.Media.Codecs.{Codec, get_payload_type, can_handle_media, get_next_packet}
use simple_sip_rs.Media.Codecs.Kept.{IsKept}
use simple_sip_rs.Call.RtpSession.{
  Udp, RtpSession, append_first, receive_media, decode_first, receive_packet, send_packets,
  send_codecs, send_codec, after_packets, joined, send_next_packet, is_some,
}
use simple_sip_rs.Call.RtpSession.Drained.{codecs-after_codecs}
use simple_sip_rs.Call.RtpSession.Task.{
  RtpReady, tick, datagram, media_ready, handle_next, on_packet, forward, on_media, run, go_on,
}

module _ (l : MediaLib) (u : Udp) (tx : Sender Media) (rx : Receiver Media) {P : Codec l → Type 0}
    (kept : IsKept l P) where
  abbrev Session : Type 0
  Session = RtpSession l u tx rx

  append_first-Each :
      (cs : List (Codec l)) (media : Media) → Each P cs → Each P (append_first l u tx rx cs media).0
  unfolding append_first
  append_first-Each [] media h = tt
  append_first-Each (c ∷ cs) media h = elim (Bool-cases (can_handle_media l c media)) [
    | inl fits ↦ rw fits (kept.appended c media h.0, h.1)
    | inr other ↦ rw other (h.0, append_first-Each cs media h.1)
  ]

  decode_first-Each :
      (cs : List (Codec l)) (n : ℕ) (payload : Text)
      → Each P cs
      → Each P (decode_first l u tx rx cs n payload).0
  unfolding decode_first
  decode_first-Each [] n payload h = tt
  decode_first-Each (c ∷ cs) n payload h = elim (Bool-cases (get_payload_type l c == n)) [
    | inl fits ↦ rw fits (kept.decoded c payload h.0, h.1)
    | inr other ↦ rw other (h.0, decode_first-Each cs n payload h.1)
  ]

  joined-Each :
      (did : Bool) (c : Codec l) (socket : u.Socket) (cs : List (Codec l)) (o : Outcome Bool)
      → P c
      → Each P cs
      → Each P (joined l u tx rx did c (socket, cs, o)).1
  joined-Each did c socket cs (ok b) p h = (p, h)
  joined-Each did c socket cs (err e) p h = (p, h)
  joined-Each did c socket cs panic p h = (p, h)

  after_packets-Each :
      (did : Bool) (c : Codec l) (cs : List (Codec l)) (socket : u.Socket) (o : Outcome (Unit {0}))
      (later : u.Socket → u.Socket × List (Codec l) × Outcome Bool)
      → P c
      → Each P cs
      → ((socket' : u.Socket) → Each P (later socket').1)
      → Each P (after_packets l u tx rx did c cs (socket, o) later).1
  after_packets-Each did c cs socket (ok _) later p h rest =
      joined-Each did c _ _ (later socket).2 p (rest socket)
  after_packets-Each did c cs socket (err e) later p h rest = (p, h)
  after_packets-Each did c cs socket panic later p h rest = (p, h)

  send_codec-Each :
      (addr : SocketAddr) (cs : List (Codec l)) (socket : u.Socket) (c : Codec l)
      (o : Outcome (List l.rtp.Packet))
      (later : u.Socket → u.Socket × List (Codec l) × Outcome Bool)
      → P c
      → Each P cs
      → ((socket' : u.Socket) → Each P (later socket').1)
      → Each P (send_codec l u tx rx addr cs socket (c, o) later).1
  send_codec-Each addr cs socket c (ok packets) later p h rest =
      let (socket', sent) = send_packets l u tx rx addr packets socket in
      after_packets-Each (is_some l u tx rx packets) c cs socket' sent later p h rest
  send_codec-Each addr cs socket c (err e) later p h rest = (p, h)
  send_codec-Each addr cs socket c panic later p h rest = (p, h)

  send_codecs-Each :
      (addr : SocketAddr) (cs : List (Codec l)) (socket : u.Socket)
      → Each P cs
      → Each P (send_codecs l u tx rx addr cs socket).1
  unfolding send_codecs
  send_codecs-Each addr [] socket h = tt
  send_codecs-Each addr (c ∷ cs) socket h =
      let (c', o) = get_next_packet l c in
      send_codec-Each addr cs socket c' o (send_codecs l u tx rx addr cs) (kept.sent c h.0) h.1
        (λ socket'. send_codecs-Each addr cs socket' h.1)

  send_next_packet-Each :
      (s : Session) → Each P s.codecs → Each P (send_next_packet l u tx rx s).0.codecs
  unfolding send_next_packet
  send_next_packet-Each s h =
      let (socket, cs, o) = send_codecs l u tx rx s.remote_addr s.codecs s.udp_socket in
      subst (Each P) (sym (codecs-after_codecs l u tx rx s socket cs o))
        (send_codecs-Each s.remote_addr s.codecs s.udp_socket h)

  forward-Each :
      (s : Session) (o : Outcome (Option Media))
      → Each P s.codecs
      → Each P (forward l u tx rx (s, o)).0.codecs
  forward-Each s (ok none) h = h
  forward-Each s (ok (some media)) h = h
  forward-Each s (err e) h = h
  forward-Each s panic h = h

  on_packet-Each :
      (s : Session) (p : Option l.rtp.Packet)
      → Each P s.codecs
      → Each P (on_packet l u tx rx s p).0.codecs
  unfolding receive_packet
  on_packet-Each s none h = h
  on_packet-Each s (some p) h =
      let x = receive_packet l u tx rx s p in
      forward-Each x.0 x.1 (decode_first-Each s.codecs (l.rtp.payload_type p) (l.rtp.payload p) h)

  on_media-Each :
      (s : Session) (m : Option Media) → Each P s.codecs → Each P (on_media l u tx rx s m).0.codecs
  unfolding receive_media
  on_media-Each s none h = h
  on_media-Each s (some media) h = append_first-Each s.codecs media h

  handle_next-Each :
      (s : Session) (ready : RtpReady)
      → Each P s.codecs
      → Each P (handle_next l u tx rx s ready).0.codecs
  unfolding handle_next
  handle_next-Each s tick h = send_next_packet-Each s h
  handle_next-Each s (datagram none) h = h
  handle_next-Each s (datagram (some b)) h = on_packet-Each s (l.rtp.unmarshal (take 512 b)) h
  handle_next-Each s media_ready h =
      let (channel, m) = Utils.recv tx rx s.media_channel in
      on_media-Each (record s { media_channel = channel }) m h

  go_on-Each :
      (s : Session) (o : Outcome (Unit {0})) (later : Session → Session × Outcome (Unit {0}))
      → Each P s.codecs
      → Each P (later s).0.codecs
      → Each P (go_on l u tx rx (s, o) later).0.codecs
  go_on-Each s (ok _) later h rest = rest
  go_on-Each s (err e) later h rest = rest
  go_on-Each s panic later h rest = h

  -- What the methods of a codec keep holds of all codecs whatever the session does.
  pub run-Each :
      (s : Session) (schedule : List RtpReady)
      → Each P s.codecs
      → Each P (run l u tx rx s schedule).0.codecs
  unfolding run
  run-Each s [] h = h
  run-Each s (ready ∷ later) h =
      let (s', o) = handle_next l u tx rx s ready in
      let h' = handle_next-Each s ready h in
      go_on-Each s' o (λ s''. run l u tx rx s'' later) h' (run-Each s' later h')
