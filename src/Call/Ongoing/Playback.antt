-- ===== src/Call/Ongoing/Playback.antt =====
-- When the user of src/call/mod.rs gets control back from `block_for_output_empty`: the session of
-- src/call/rtp_session.rs at the other end of the channel has sent all that it had.
use simple_sip_rs.Prelude.{
  ℕ, suc, ◌*◌, ◌≤◌, ◌<◌, ◌≡◌, refl, ap, ◌∙◌, inl, inr, true, false, List, [], ◌∷◌, ◌++◌, length,
  replicate, append-cancel, Bool-cases,
}
use mathlib.Core.List.{append_assoc}
use simple_sip_rs.Channels.{Sender, IsSender, Receiver, IsReceiver}
use simple_sip_rs.Utils as Utils
use simple_sip_rs.Media.Libraries.{MediaLib, IsMediaLib}
use simple_sip_rs.Media.Opus.{OpusCodec, samples_count}
use simple_sip_rs.Media.TelephoneEvents.{Media, output_empty}
use simple_sip_rs.Media.Codecs.{opus}
use simple_sip_rs.Call.Runtime.{Runtime}
use simple_sip_rs.Call.RtpSession.{Udp, RtpSession}
use simple_sip_rs.Call.RtpSession.Delivery.{told}
use simple_sip_rs.Call.RtpSession.Quiet.{ticks, AllSucceed}
use simple_sip_rs.Call.RtpSession.Drained.{output_empty_told}
use simple_sip_rs.Call.Ongoing.{Tasks, Call, media_ready, is_output_empty, block_for_output_empty}

module _ (t : Runtime) (tx : Sender Media) (rx : Receiver Media) (k : Tasks) where
  -- The media that the user gets from now on.
  abbrev media_arrivals : Call t tx rx k → List Media
  media_arrivals c = rx.arrivals c.media_channel.receiver

  output_empty-unblocks :
      (c : Call t tx rx k) (before rest : List Media)
      → IsReceiver rx
      → media_arrivals c ≡ before ++ output_empty ∷ rest
      → (n : ℕ) × ((block_for_output_empty t tx rx k c (replicate n media_ready)).1 ≡ true)
  unfolding block_for_output_empty Utils.recv
  output_empty-unblocks c [] rest law e =
      let x = law.recv_next c.media_channel.receiver output_empty rest e in (1, rw x.0 refl)
  output_empty-unblocks c (m ∷ before) rest law e =
      let x = law.recv_next c.media_channel.receiver m (before ++ output_empty ∷ rest) e in
      let c' = record c {
        media_channel = record c.media_channel { receiver = (rx.recv c.media_channel.receiver).0 };
      } in
      elim (Bool-cases (is_output_empty m)) [
        | inl done ↦ (1, rw (x.0, done) refl)
        | inr other ↦
            let (n, returned) = output_empty-unblocks c' before rest law x.1 in
            (suc n, rw (x.0, other) returned)
      ]

  module _ (l : MediaLib) (u : Udp) where
    -- Where opus is the session's only codec, a packet takes at least one sample, i packets take
    -- all that is buffered, the user has not been told of the end of the output since something
    -- was sent, and the next i + 1 ticks succeed: a user who gets what the session has told by
    -- then, and perhaps more, returns from block_for_output_empty once enough of these media are
    -- received, whatever of the earlier ones was received before. It assumes the laws of the
    -- channel and of the audio libraries.
    pub playback_unblocks :
        (i : ℕ) (s : RtpSession l u tx rx) (codec : OpusCodec l) (c : Call t tx rx k)
        (got waiting more : List Media)
        → IsMediaLib l
        → IsSender tx
        → IsReceiver rx
        → s.codecs ≡ opus codec ∷ []
        → s.notified_empty ≡ false
        → 0 < samples_count l codec
        → length codec.buffer_out ≤ i * samples_count l codec
        → AllSucceed l u tx rx (suc i) s
        → told l u tx rx s ≡ got ++ waiting
        → got ++ media_arrivals c ≡ told l u tx rx (ticks l u tx rx (suc i) s) ++ more
        → (n : ℕ) × ((block_for_output_empty t tx rx k c (replicate n media_ready)).1 ≡ true)
    playback_unblocks i s codec c got waiting more lib sender receiver e quiet p h all_ok until_now
          delivered =
        let (j, sent) = output_empty_told l u tx rx i s codec lib sender e quiet p h all_ok in
        let rest = replicate j output_empty ++ more in
        let since : media_arrivals c ≡ waiting ++ output_empty ∷ rest = append-cancel got (
          delivered
          ∙ ap (λ (ms : List Media). ms ++ more)
              (sent ∙ ap (λ (ms : List Media). ms ++ replicate (suc j) output_empty) until_now)
          ∙ append_assoc (got ++ waiting) (replicate (suc j) output_empty) more
          ∙ append_assoc got waiting (output_empty ∷ rest)) in
        output_empty-unblocks c waiting rest receiver since
