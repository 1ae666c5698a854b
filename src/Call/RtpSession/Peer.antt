-- ===== src/Call/RtpSession/Peer.antt =====
-- What the peer's session description means for the packets that src/call/rtp_session.rs takes.
use simple_sip_rs.Prelude.{
  ℕ, ◌≡◌, refl, ap, ◌∙◌, false, ◌==◌, List, [], ◌∷◌, none, some, take, Text, ok, ok_or, begins_well,
  ok-injective, get_elem?, no_media, bad_address,
}
use simple_sip_rs.Channels.{Sender, Receiver}
use simple_sip_rs.Utils.{Channel}
use simple_sip_rs.Sdp.{SdpSession, WebrtcSdp}
use simple_sip_rs.Media.Libraries.{MediaLib}
use simple_sip_rs.Media.Features.{Features}
use simple_sip_rs.Media.Offers.{ptime_of}
use simple_sip_rs.Media.Offers.Found.{offers_type, type_not_offered}
use simple_sip_rs.Media.TelephoneEvents.{Media}
use simple_sip_rs.Media.Codecs.{Codec, Seeds, get_payload_type, get_codecs_from_sdp_session}
use simple_sip_rs.Media.Codecs.Negotiation.{AllOffered, codecs_offered}
use simple_sip_rs.Media.Codecs.Kept.{IsOffered-IsKept}
use simple_sip_rs.Call.Session.{SessionParameters}
use simple_sip_rs.Call.RtpSession.{
  Udp, RtpSession, remote_of, period, new, decode_first, receive_packet,
}
use simple_sip_rs.Call.RtpSession.Task.{RtpReady, datagram, handle_next, run}
use simple_sip_rs.Call.RtpSession.Offered.{run-Each}

module _ (l : MediaLib) (u : Udp) (tx : Sender Media) (rx : Receiver Media) where
  codecs-new :
      (w : WebrtcSdp) (f : Features) (seeds : Seeds l) (channel : Channel tx rx)
      (params : SessionParameters) (s : RtpSession l u tx rx)
      → new l u tx rx w f seeds channel params ≡ ok s
      → get_codecs_from_sdp_session l w f seeds params.remote.sdp ≡ ok s.codecs
  unfolding new
  codecs-new w f seeds channel params s h =
      let (cs, made, h1) =
        begins_well _ (get_codecs_from_sdp_session l w f seeds params.remote.sdp) h in
      let (socket, bound, h2) = begins_well _ (ok_or (u.bind params.local.port) bad_address) h1 in
      let (media, first, h3) =
        begins_well _ (ok_or (get_elem? params.remote.sdp.media 0) no_media) h2 in
      let (addr, reached, h4) =
        begins_well _ (remote_of l u tx rx media.port params.remote.sdp.connection) h3 in
      let (ptime, positive, h5) = begins_well _ (period l u tx rx (ptime_of w media)) h4 in
      made ∙ ap (λ (s' : RtpSession l u tx rx). ok s'.codecs) (ok-injective h5)

  -- A packet with a payload type that is not offered finds no codec.
  decode_none :
      (sdp : SdpSession) (cs : List (Codec l)) (n : ℕ) (payload : Text)
      → AllOffered l sdp cs
      → offers_type n sdp.media ≡ false
      → decode_first l u tx rx cs n payload ≡ (cs, ok none)
  unfolding decode_first
  decode_none sdp [] n payload all absent = refl
  decode_none sdp (c ∷ cs) n payload ((m, a, offers, type), all) absent =
      let other : (get_payload_type l c == n) ≡ false =
        ap (λ (k : ℕ). k == n) type ∙ type_not_offered _ sdp.media m a n offers absent in
      rw (other, decode_none sdp cs n payload all absent) refl

  -- A session that was made with a peer's session description keeps to it, whatever schedule it
  -- has run: each of its codecs is offered there, by an audio medium with an rtpmap attribute
  -- with the codec's name, in any case of ASCII letters, and its payload type. A packet with a
  -- payload type that no audio medium of the description has is ignored: the session stays as it
  -- is.
  pub unoffered_ignored :
      (w : WebrtcSdp) (f : Features) (seeds : Seeds l) (channel : Channel tx rx)
      (params : SessionParameters) (s : RtpSession l u tx rx) (schedule : List RtpReady) (b : Text)
      (p : l.rtp.Packet)
      → new l u tx rx w f seeds channel params ≡ ok s
      → l.rtp.unmarshal (take 512 b) ≡ some p
      → offers_type (l.rtp.payload_type p) params.remote.sdp.media ≡ false
      → let s' = (run l u tx rx s schedule).0 in
        AllOffered l params.remote.sdp s'.codecs
        × (handle_next l u tx rx s' (datagram (some b)) ≡ (s', ok tt))
  unfolding handle_next receive_packet
  unoffered_ignored w f seeds channel params s schedule b p made packet absent =
      let sdp = params.remote.sdp in
      let all : AllOffered l sdp s.codecs =
        codecs_offered l w f seeds sdp s.codecs (codecs-new w f seeds channel params s made) in
      let all' : AllOffered l sdp (run l u tx rx s schedule).0.codecs =
        run-Each l u tx rx (IsOffered-IsKept l sdp) s schedule all in
      (all', rw (packet, decode_none sdp _ _ (l.rtp.payload p) all' absent) refl)
