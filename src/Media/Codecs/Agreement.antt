-- ===== src/Media/Codecs/Agreement.antt =====
-- Two clients with the same features agree on their codecs.
use simple_sip_rs.Prelude.{ℕ, ◌≡◌, refl, Bool, true, false, List, [], ◌∷◌, map, some, text_eq, ok}
use simple_sip_rs.Config.{Config}
use simple_sip_rs.Sdp.{WebrtcSdp}
use simple_sip_rs.SipProto.Sdp.{bare_session}
use simple_sip_rs.SipProto.Sdp.Offer.{offered_media, payload_types}
use simple_sip_rs.Media.Libraries.{MediaLib, stereo}
use simple_sip_rs.Media.Features.{Features}
use simple_sip_rs.Media.Offers.{to_lowercase, find_rtpmap, find_codec}
use simple_sip_rs.Media.Opus as Opus
use simple_sip_rs.Media.Pcmu.Codec as Pcmu
use simple_sip_rs.Media.Pcma.Codec as Pcma
use simple_sip_rs.Media.TelephoneEvents as TelephoneEvents
use simple_sip_rs.Media.Codecs.{Codec, get_payload_type, Seeds, get_codecs_from_sdp_session}

module _ (l : MediaLib) (w : WebrtcSdp) (seeds : Seeds l) (config : Config) (port : ℕ) where
  abbrev Agrees : Features → Type 0
  Agrees f =
      let s = record (bare_session config) { media = offered_media f port ∷ [] } in
      (cs : List (Codec l)) × (get_codecs_from_sdp_session l w f seeds s ≡ ok cs)
      × (map (get_payload_type l) cs ≡ payload_types f)

  flags-Agrees :
      (a b c : Bool) (d : l.opus.Decoder) (e : l.opus.Encoder)
      → l.opus.new_decoder 48000 stereo ≡ some d
      → l.opus.new_encoder 48000 stereo ≡ some e
      → Agrees (record { opus = a; pcmu = b; pcma = c })
  unfolding get_codecs_from_sdp_session Opus.try_from_sdp_session Pcmu.try_from_sdp_session
      Pcma.try_from_sdp_session TelephoneEvents.try_from_sdp get_payload_type find_codec find_rtpmap
      to_lowercase text_eq
  flags-Agrees true true true d e hd he = rw (hd, he) (_, refl, refl)
  flags-Agrees true true false d e hd he = rw (hd, he) (_, refl, refl)
  flags-Agrees true false true d e hd he = rw (hd, he) (_, refl, refl)
  flags-Agrees true false false d e hd he = rw (hd, he) (_, refl, refl)
  flags-Agrees false true true d e hd he = (_, refl, refl)
  flags-Agrees false true false d e hd he = (_, refl, refl)
  flags-Agrees false false true d e hd he = (_, refl, refl)
  flags-Agrees false false false d e hd he = (_, refl, refl)

  -- Where opus makes a stereo decoder and encoder at 48000 Hz, the codecs that are made of the
  -- session description which the client itself offers have the payload types of the offer, in
  -- order, whatever features are on.
  pub offer_read_back :
      (f : Features) (d : l.opus.Decoder) (e : l.opus.Encoder)
      → l.opus.new_decoder 48000 stereo ≡ some d
      → l.opus.new_encoder 48000 stereo ≡ some e
      → let s = record (bare_session config) { media = offered_media f port ∷ [] } in
        (cs : List (Codec l)) × (get_codecs_from_sdp_session l w f seeds s ≡ ok cs)
        × (map (get_payload_type l) cs ≡ payload_types f)
  offer_read_back f d e hd he = flags-Agrees f.opus f.pcmu f.pcma d e hd he
