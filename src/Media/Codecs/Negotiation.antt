-- ===== src/Media/Codecs/Negotiation.antt =====
-- Which codecs src/media/mod.rs makes of the session description of a peer.
use simple_sip_rs.Prelude.{
  ℕ, ◌≡◌, refl, sym, subst, inl, inr, List, Option, none, some, Text, codes, ok, ok-injective,
  begins_well, Each, Each-append, arith, Bool-cases, Option-cases, if◌then◌else◌,
}
use simple_sip_rs.Sdp.{Rtpmap, SdpMedia, SdpSession, WebrtcSdp}
use simple_sip_rs.Media.Libraries.{MediaLib}
use simple_sip_rs.Media.Features.{Features}
use simple_sip_rs.Media.Offers.{find_codec}
use simple_sip_rs.Media.Offers.Found.{Offers, find_codec-Offers}
use simple_sip_rs.Media.Opus as Opus
use simple_sip_rs.Media.Opus.{OpusCodec}
use simple_sip_rs.Media.G711Codec as G711Codec
use simple_sip_rs.Media.G711Codec.{G711Codec}
use simple_sip_rs.Media.Pcmu.Codec as Pcmu
use simple_sip_rs.Media.Pcma.Codec as Pcma
use simple_sip_rs.Media.TelephoneEvents as TelephoneEvents
use simple_sip_rs.Media.TelephoneEvents.{TelephoneEventsCodec}
use simple_sip_rs.Media.Codecs.{
  Codec, opus, pcmu, pcma, telephone_events, get_payload_type, Seeds, pushed,
  get_codecs_from_sdp_session,
}

module _ (l : MediaLib) where
  abbrev pub name_of : Codec l → Text
  name_of (opus c) = codes "opus"
  name_of (pcmu c) = codes "pcmu"
  name_of (pcma c) = codes "pcma"
  name_of (telephone_events c) = codes "telephone-event"

  -- An audio medium of the description names the codec, with the codec's payload type.
  abbrev pub IsOffered : SdpSession → Codec l → Type 0
  IsOffered s c =
      (m : SdpMedia) × (a : Rtpmap) × Offers (name_of c) s.media m a
      × (get_payload_type l c ≡ a.payload_type)

  abbrev pub AllOffered : SdpSession → List (Codec l) → Type 0
  AllOffered s cs = Each (IsOffered s) cs

  -- What `find_codec` has found is offered.
  abbrev Found : Text → SdpSession → Option (SdpMedia × Rtpmap) → Type 0
  Found name s none = Unit {0}
  Found name s (some (m, a)) = Offers name s.media m a

  found_lem : (name : Text) (s : SdpSession) → Found name s (find_codec name s.media)
  found_lem name s = elim (Option-cases (find_codec name s.media)) [
    | inl e ↦ rw e tt
    | inr ((m, a), e) ↦ rw e (find_codec-Offers name s.media m a e)
  ]

  opus-AllOffered :
      (seed : ℕ × ℕ) (s : SdpSession) (found : Option (SdpMedia × Rtpmap))
      (o : Option (OpusCodec l))
      → Found (codes "opus") s found
      → Opus.made l seed found ≡ ok o
      → AllOffered s (pushed l opus o)
  unfolding get_payload_type
  opus-AllOffered seed s none o f h =
      subst (λ x. AllOffered s (pushed l opus x)) (ok-injective h) tt
  opus-AllOffered seed s (some (m, a)) o f h =
      let n : ℕ = Opus.channels_of l a.channels in
      elim (Option-cases (l.opus.new_decoder a.frequency (Opus.opus_channels l n))) [
        | inl e ↦ absurd (ground (arith, rw e at h))
        | inr (d, e) ↦
            elim (Option-cases (l.opus.new_encoder a.frequency (Opus.opus_channels l n))) [
              | inl e' ↦ absurd (ground (arith, rw (e, e') at h))
              | inr (b, e') ↦
                  subst (λ x. AllOffered s (pushed l opus x)) (ok-injective (rw (e, e') at h))
                    ((m, a, f, refl), tt)
            ]
      ]

  -- The two codecs of G.711 under their names.
  g711-AllOffered :
      (make : G711Codec l → Codec l) (w : WebrtcSdp) (seed : ℕ × ℕ) (s : SdpSession)
      (found : Option (SdpMedia × Rtpmap)) (o : Option (G711Codec l)) (name : Text)
      → ((c : G711Codec l) → name_of (make c) ≡ name)
      → ((c : G711Codec l) → get_payload_type l (make c) ≡ c.payload_type)
      → Found name s found
      → ok (G711Codec.made l w seed found) ≡ ok o
      → AllOffered s (pushed l make o)
  g711-AllOffered make w seed s none o name en ep f h =
      subst (λ x. AllOffered s (pushed l make x)) (ok-injective h) tt
  g711-AllOffered make w seed s (some (m, a)) o name en ep f h =
      subst (λ x. AllOffered s (pushed l make x)) (ok-injective h)
        ((m, a, subst (λ (y : Text). Offers y s.media m a) (sym (en _)) f, ep _), tt)

  events-AllOffered :
      (s : SdpSession) (found : Option (SdpMedia × Rtpmap))
      → Found (codes "telephone-event") s found
      → AllOffered s (pushed l telephone_events (TelephoneEvents.made found))
  unfolding get_payload_type
  events-AllOffered s none f = tt
  events-AllOffered s (some (m, a)) f = ((m, a, f, refl), tt)

  -- A codec that is off gives nothing.
  off :
      {X : Type 0} (make : X → Codec l) (s : SdpSession) (o : Option X)
      → ok none ≡ ok o
      → AllOffered s (pushed l make o)
  off make s o h = subst (λ x. AllOffered s (pushed l make x)) (ok-injective h) tt

  -- Every codec that is made of a peer's session description is offered there: an audio medium
  -- has an rtpmap attribute with the codec's name, in any case of ASCII letters, and the codec
  -- has the payload type of this attribute.
  pub codecs_offered :
      (w : WebrtcSdp) (f : Features) (seeds : Seeds l) (s : SdpSession) (cs : List (Codec l))
      → get_codecs_from_sdp_session l w f seeds s ≡ ok cs
      → AllOffered s cs
  unfolding get_codecs_from_sdp_session Opus.try_from_sdp_session Pcmu.try_from_sdp_session
      Pcma.try_from_sdp_session TelephoneEvents.try_from_sdp get_payload_type
  codecs_offered w f seeds s cs h =
      let (c1, e1, h1) =
        begins_well _ (if f.opus then Opus.try_from_sdp_session l seeds.of_opus s else ok none) h in
      let (c2, e2, h2) =
        begins_well _ (if f.pcmu then Pcmu.try_from_sdp_session l w seeds.of_pcmu s else ok none)
          h1 in
      let (c3, e3, h3) =
        begins_well _ (if f.pcma then Pcma.try_from_sdp_session l w seeds.of_pcma s else ok none)
          h2 in
      let p1 : AllOffered s (pushed l opus c1) = elim (Bool-cases f.opus) [
        | inl on ↦ opus-AllOffered seeds.of_opus s _ c1 (found_lem (codes "opus") s) (rw on at e1)
        | inr no_opus ↦ off opus s c1 (rw no_opus at e1)
      ] in
      let p2 : AllOffered s (pushed l pcmu c2) = elim (Bool-cases f.pcmu) [
        | inl on ↦
            g711-AllOffered pcmu w seeds.of_pcmu s _ c2 (codes "pcmu") (λ c. refl) (λ c. refl)
              (found_lem (codes "pcmu") s) (rw on at e2)
        | inr no_pcmu ↦ off pcmu s c2 (rw no_pcmu at e2)
      ] in
      let p3 : AllOffered s (pushed l pcma c3) = elim (Bool-cases f.pcma) [
        | inl on ↦
            g711-AllOffered pcma w seeds.of_pcma s _ c3 (codes "pcma") (λ c. refl) (λ c. refl)
              (found_lem (codes "pcma") s) (rw on at e3)
        | inr no_pcma ↦ off pcma s c3 (rw no_pcma at e3)
      ] in
      let p4 = events-AllOffered s _ (found_lem (codes "telephone-event") s) in
      subst (AllOffered s) (ok-injective h3) (
        Each-append (IsOffered s) _ _ p1
          (Each-append (IsOffered s) _ _ p2 (Each-append (IsOffered s) _ _ p3 p4)))
