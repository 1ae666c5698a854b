-- ===== src/Call/RtpSession/Delivery.antt =====
-- Which codec gets a packet in src/call/rtp_session.rs, and what the user gets of it.
use simple_sip_rs.Prelude.{
  ℕ, ◌≡◌, refl, ap, ◌∙◌, ◌⊎◌, inl, inr, true, false, ◌==◌, List, [], ◌∷◌, ◌++◌, some, take, Text,
  ok, err, send_failed, Bool-cases,
}
use simple_sip_rs.Channels.{Sender, IsSender, Receiver}
use simple_sip_rs.Utils
use simple_sip_rs.Media.Libraries.{MediaLib}
use simple_sip_rs.Media.TelephoneEvents.{Media}
use simple_sip_rs.Media.Codecs.{Codec, get_payload_type, decode_payload}
use simple_sip_rs.Call.RtpSession.{Udp, RtpSession, decode_first, receive_packet}
use simple_sip_rs.Call.RtpSession.Task.{datagram, handle_next}

module _ (l : MediaLib) (u : Udp) (tx : Sender Media) (rx : Receiver Media) where
  -- No codec of the list has the payload type.
  abbrev pub NoneHas : ℕ → List (Codec l) → Type 0
  NoneHas n [] = Unit {0}
  NoneHas n (c ∷ cs) = ((get_payload_type l c == n) ≡ false) × NoneHas n cs

  abbrev pub told : RtpSession l u tx rx → List Media
  told s = tx.sent s.media_channel.sender

  decode_first_lem :
      (before after : List (Codec l)) (c : Codec l) (n : ℕ) (payload : Text)
      → NoneHas n before
      → (get_payload_type l c == n) ≡ true
      → decode_first l u tx rx (before ++ c ∷ after) n payload
        ≡ (before ++ (decode_payload l c payload).0 ∷ after, (decode_payload l c payload).1)
  unfolding decode_first
  decode_first_lem [] after c n payload o h = rw h
  decode_first_lem (b ∷ before) after c n payload o h =
      rw (o.0, decode_first_lem before after c n payload o.1 h)

  -- A datagram whose first 512 bytes are a packet goes to the first codec with its payload type.
  -- Where this gives media, the other codecs and notified_empty stay, and the media stands behind
  -- all that the user was told before; if the channel is closed, an error is returned and the
  -- user is told nothing. It assumes the law of the channel.
  pub datagram_forwarded :
      (s : RtpSession l u tx rx) (b : Text) (p : l.rtp.Packet) (before after : List (Codec l))
      (c : Codec l) (media : Media)
      → IsSender tx
      → l.rtp.unmarshal (take 512 b) ≡ some p
      → s.codecs ≡ before ++ c ∷ after
      → NoneHas (l.rtp.payload_type p) before
      → (get_payload_type l c == l.rtp.payload_type p) ≡ true
      → (decode_payload l c (l.rtp.payload p)).1 ≡ ok (some media)
      → let (s', res) = handle_next l u tx rx s (datagram (some b)) in
        (s'.codecs ≡ before ++ (decode_payload l c (l.rtp.payload p)).0 ∷ after)
        × (s'.notified_empty ≡ s.notified_empty)
        × (((res ≡ ok tt) × (told s' ≡ told s ++ media ∷ []))
            ⊎ ((res ≡ err send_failed) × (told s' ≡ told s)))
  unfolding handle_next receive_packet Utils.send
  datagram_forwarded s b p before after c media law hu hs o h hd =
      let first : decode_first l u tx rx s.codecs (l.rtp.payload_type p) (l.rtp.payload p)
          ≡ (before ++ (decode_payload l c (l.rtp.payload p)).0 ∷ after, ok (some media)) =
        ap
          (λ (cs : List (Codec l)).
            decode_first l u tx rx cs (l.rtp.payload_type p) (l.rtp.payload p))
          hs
        ∙ decode_first_lem before after c (l.rtp.payload_type p) (l.rtp.payload p) o h
        ∙ ap (λ y. (before ++ (decode_payload l c (l.rtp.payload p)).0 ∷ after, y)) hd in
      rw (hu, first)
        (elim (Bool-cases (tx.send s.media_channel.sender media).1) [
          | inl done ↦ rw done (refl, refl, inl (refl, law.send_ok _ media done))
          | inr lost ↦ rw lost (refl, refl, inr (refl, law.send_failed _ media lost))
        ])
