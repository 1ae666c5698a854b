-- ===== src/SipProto/Sdp/Offer.antt =====
-- What the session description of src/sip_proto/sdp.rs offers.
use simple_sip_rs.Prelude.{
  ℕ, ◌≡◌, refl, Bool, true, false, not, ◌&&◌, ◌||◌, ◌==◌, List, [], ◌∷◌, ◌++◌, some, ok,
  if◌then◌else◌,
}
use simple_sip_rs.Config.{Config}
use simple_sip_rs.Sdp.{
  SdpAttribute, rtpmap, fmtp, sendrecv, rtcp_mux, SdpMedia, SdpSession, ip, audio, rtp_avp,
  WebrtcSdp, IsWebrtcSdp,
}
use simple_sip_rs.SipProto.Sdp.{media_line, bare_session, generate_sdp_new}
use simple_sip_rs.Media.Features.{
  Features, opus_rtpmap, opus_fmtp, pcmu_rtpmap, pcma_rtpmap, telephone_rtpmap, telephone_fmtp,
  populate_sdp_media_from_codecs, opus_populate, pcmu_populate, pcma_populate, telephone_populate,
}

-- The payload types in the order of preference, and the attributes with their codecs.
abbrev pub payload_types : Features → List ℕ
payload_types f =
    (if f.opus then 107 ∷ [] else [])
    ++ ((if f.pcmu then 0 ∷ [] else []) ++ ((if f.pcma then 0 ∷ [] else []) ++ 101 ∷ []))

abbrev pub offered_attributes : Features → List SdpAttribute
offered_attributes f =
    (if f.opus then rtpmap opus_rtpmap ∷ fmtp opus_fmtp ∷ [] else [])
    ++ ((if f.pcmu then rtpmap pcmu_rtpmap ∷ [] else [])
        ++ ((if f.pcma then rtpmap pcma_rtpmap ∷ [] else [])
            ++ rtpmap telephone_rtpmap ∷ fmtp telephone_fmtp ∷ sendrecv ∷ rtcp_mux ∷ []))

abbrev pub offered_media : Features → ℕ → SdpMedia
offered_media f port = record (media_line port) {
  formats = payload_types f;
  attributes = offered_attributes f;
}

-- The client's address, and one audio line at the port for RTP.
abbrev pub IsOffer : Features → Config → ℕ → SdpSession → Type 0
IsOffer f config rtp_port s =
    (s.origin.unicast_addr ≡ ip config.own_addr.ip)
    × (s.connection ≡ some (ip config.own_addr.ip))
    × (s.media
        ≡ record {
          media = audio;
          port = rtp_port;
          port_count = 0;
          proto = rtp_avp;
          formats = payload_types f;
          attributes = offered_attributes f;
        }
          ∷ [])

abbrev occurs : ℕ → List ℕ → Bool
occurs x [] = false
occurs x (y ∷ ys) = (x == y) || occurs x ys

abbrev pub distinct : List ℕ → Bool
distinct [] = true
distinct (x ∷ xs) = not (occurs x xs) && distinct xs

module _ {w : WebrtcSdp} (law : IsWebrtcSdp w) where
  offer_of :
      (a b c : Bool) (config : Config) (port : ℕ)
      → let f : Features = record { opus = a; pcmu = b; pcma = c } in
        (generate_sdp_new w f config port
          ≡ ok (record (bare_session config) { media = offered_media f port ∷ [] }))
        × (distinct (payload_types f) ≡ not (b && c))
  unfolding generate_sdp_new populate_sdp_media_from_codecs opus_populate pcmu_populate
      pcma_populate telephone_populate
  offer_of true true true config port = (simp (law.add_codec_lem, law.add_attribute_lem), refl)
  offer_of true true false config port = (simp (law.add_codec_lem, law.add_attribute_lem), refl)
  offer_of true false true config port = (simp (law.add_codec_lem, law.add_attribute_lem), refl)
  offer_of true false false config port = (simp (law.add_codec_lem, law.add_attribute_lem), refl)
  offer_of false true true config port = (simp (law.add_codec_lem, law.add_attribute_lem), refl)
  offer_of false true false config port = (simp (law.add_codec_lem, law.add_attribute_lem), refl)
  offer_of false false true config port = (simp (law.add_codec_lem, law.add_attribute_lem), refl)
  offer_of false false false config port = (simp (law.add_codec_lem, law.add_attribute_lem), refl)

  pub generate_sdp_new-offered_media :
      (f : Features) (config : Config) (port : ℕ)
      → generate_sdp_new w f config port
        ≡ ok (record (bare_session config) { media = offered_media f port ∷ [] })
  generate_sdp_new-offered_media f config port = (offer_of f.opus f.pcmu f.pcma config port).0

  -- A session description is made whatever features are on: its origin and its connection have
  -- the client's own IP address, and it has one audio line for RTP at the given port, with the
  -- payload types and attributes of the codecs that are on in the order opus, PCMU, PCMA, and of
  -- the telephone events; no two payload types are the same unless PCMU and PCMA are both on, and
  -- then two are. It assumes the laws of the SDP library.
  pub generate_sdp_new_lem :
      (f : Features) (config : Config) (port : ℕ)
      → (s : SdpSession) × (generate_sdp_new w f config port ≡ ok s)
        × IsOffer f config port s
        × (distinct (payload_types f) ≡ not (f.pcmu && f.pcma))
  generate_sdp_new_lem f config port =
      let (made, different) = offer_of f.opus f.pcmu f.pcma config port in
      (_, made, (refl, refl, refl), different)
