-- ===== src/Call/RtpSession/Drained.antt =====
-- Sound that was given to a call is sent, and the user of src/call/rtp_session.rs is told of its end.
use simple_sip_rs.Prelude.{
  ℕ, zero, suc, ◌*◌, ◌≤◌, ◌<◌, ◌≡◌, refl, ap, ◌∙◌, inl, inr, Bool, true, false, not, List, [], ◌∷◌,
  ◌++◌, length, replicate, Outcome, ok, err, panic, Bool-cases,
}
use simple_sip_rs.Config.{SocketAddr}
use simple_sip_rs.Channels.{Sender, IsSender, Receiver}
use simple_sip_rs.Utils
use simple_sip_rs.Media.Libraries.{MediaLib, IsMediaLib}
use simple_sip_rs.Media.TelephoneEvents.{Media, output_empty}
use simple_sip_rs.Media.Opus as Opus
use simple_sip_rs.Media.Opus.{OpusCodec, samples_count}
use simple_sip_rs.Media.Opus.Drain as Drain
use simple_sip_rs.Media.Codecs.{Codec, opus, get_next_packet}
use simple_sip_rs.Call.RtpSession.{
  Udp, send_codec, after_packets, send_packets, send_codecs, after_codecs, send_next_packet,
}
use simple_sip_rs.Call.RtpSession.Delivery.{told}
use simple_sip_rs.Call.RtpSession.Quiet.{
  Session, busy, has_packets, ticks, trace, AllSucceed, falling, notifications,
}

falling_end : (bs : List Bool) → (j : ℕ) × (falling true (bs ++ false ∷ []) ≡ suc j)
falling_end [] = (0, refl)
falling_end (true ∷ bs) = falling_end bs
falling_end (false ∷ bs) = (falling false (bs ++ false ∷ []), refl)

module _ (l : MediaLib) (u : Udp) (tx : Sender Media) (rx : Receiver Media) where
  trace-suc :
      (k : ℕ) (s : Session l u tx rx)
      → trace l u tx rx (suc k) s ≡ trace l u tx rx k s ++ busy l u tx rx (ticks l u tx rx k s) ∷ []
  unfolding trace ticks
  trace-suc zero s = refl
  trace-suc (suc k) s =
      ap (λ (t : List Bool). busy l u tx rx s ∷ t) (trace-suc k (send_next_packet l u tx rx s).0)

  codecs-after_packets :
      (did : Bool) (c : Codec l) (socket : u.Socket) (o : Outcome (Unit {0})) (addr : SocketAddr)
      → (after_packets l u tx rx did c [] (socket, o) (send_codecs l u tx rx addr [])).1 ≡ c ∷ []
  unfolding send_codecs
  codecs-after_packets did c socket (ok _) addr = refl
  codecs-after_packets did c socket (err e) addr = refl
  codecs-after_packets did c socket panic addr = refl

  codecs-send_codec :
      (addr : SocketAddr) (socket : u.Socket) (c : Codec l) (o : Outcome (List l.rtp.Packet))
      → (send_codec l u tx rx addr [] socket (c, o) (send_codecs l u tx rx addr [])).1 ≡ c ∷ []
  codecs-send_codec addr socket c (ok packets) =
      let p = send_packets l u tx rx addr packets socket in codecs-after_packets _ c p.0 p.1 addr
  codecs-send_codec addr socket c (err e) = refl
  codecs-send_codec addr socket c panic = refl

  pub codecs-after_codecs :
      (s : Session l u tx rx) (socket : u.Socket) (cs : List (Codec l)) (o : Outcome Bool)
      → (after_codecs l u tx rx s (socket, cs, o)).0.codecs ≡ cs
  unfolding Utils.send
  codecs-after_codecs s socket cs (err e) = refl
  codecs-after_codecs s socket cs panic = refl
  codecs-after_codecs s socket cs (ok true) = refl
  codecs-after_codecs s socket cs (ok false) = elim (Bool-cases s.notified_empty) [
    | inl e ↦ rw e
    | inr e ↦ elim (Bool-cases (tx.send s.media_channel.sender output_empty).1) [
      | inl done ↦ rw (e, done)
      | inr lost ↦ rw (e, lost)
    ]
  ]

  -- A session with one codec ticks as its codec does.
  codecs-tick :
      (s : Session l u tx rx) (c : OpusCodec l)
      → s.codecs ≡ opus c ∷ []
      → (send_next_packet l u tx rx s).0.codecs ≡ opus (Opus.get_next_packet l c).0 ∷ []
  unfolding send_next_packet send_codecs get_next_packet
  codecs-tick s c e =
      let x = send_codecs l u tx rx s.remote_addr s.codecs s.udp_socket in
      let p = Opus.get_next_packet l c in
      codecs-after_codecs s x.0 x.1 x.2
      ∙ ap (λ (cs : List (Codec l)). (send_codecs l u tx rx s.remote_addr cs s.udp_socket).1) e
      ∙ codecs-send_codec s.remote_addr s.udp_socket (opus p.0) p.1

  codecs-ticks :
      (k : ℕ) (s : Session l u tx rx) (c : OpusCodec l)
      → s.codecs ≡ opus c ∷ []
      → (ticks l u tx rx k s).codecs ≡ opus (Drain.ticks l k c) ∷ []
  unfolding ticks Drain.ticks
  codecs-ticks zero s c e = e
  codecs-ticks (suc k) s c e =
      codecs-ticks k (send_next_packet l u tx rx s).0 (Opus.get_next_packet l c).0
        (codecs-tick s c e)

  not_busy :
      (s : Session l u tx rx) (c : OpusCodec l)
      → s.codecs ≡ opus c ∷ []
      → (Opus.get_next_packet l c).1 ≡ ok []
      → busy l u tx rx s ≡ false
  unfolding busy has_packets get_next_packet
  not_busy s c e h = ap (has_packets l u tx rx) e ∙ rw h

  -- Where opus is the session's only codec, a packet takes at least one sample, k packets take
  -- all that is buffered, the user has not been told of the end of the output since something was
  -- sent, and the next k + 1 ticks succeed: after these the user has been told of the end at
  -- least once, and of nothing else. It assumes that the channel and the audio libraries keep
  -- their laws.
  pub output_empty_told :
      (k : ℕ) (s : Session l u tx rx) (c : OpusCodec l)
      → IsMediaLib l
      → IsSender tx
      → s.codecs ≡ opus c ∷ []
      → s.notified_empty ≡ false
      → 0 < samples_count l c
      → length c.buffer_out ≤ k * samples_count l c
      → AllSucceed l u tx rx (suc k) s
      → (j : ℕ) × (told l u tx rx (ticks l u tx rx (suc k) s)
          ≡ told l u tx rx s ++ replicate (suc j) output_empty)
  output_empty_told k s c law sender e quiet p h all_ok =
      let (pad, small, emptied, sent, nothing) = Drain.ticks-drain l k c law p h in
      let last : busy l u tx rx (ticks l u tx rx k s) ≡ false =
        not_busy (ticks l u tx rx k s) (Drain.ticks l k c) (codecs-ticks k s c e) nothing in
      let (j, f) = falling_end (trace l u tx rx k s) in
      (
        j,
        notifications l u tx rx (suc k) s sender all_ok
            ∙ ap (λ (n : ℕ). told l u tx rx s ++ replicate n output_empty)
                (ap (λ (b : Bool). falling (not b) (trace l u tx rx (suc k) s)) quiet
                  ∙ ap (falling true)
                      (trace-suc k s ∙ ap (λ (b : Bool). trace l u tx rx k s ++ b ∷ []) last)
                  ∙ f),
      )
