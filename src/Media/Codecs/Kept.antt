-- ===== src/Media/Codecs/Kept.antt =====
-- What a codec of src/media/mod.rs keeps in all its methods: its name and its payload type.
use simple_sip_rs.Prelude.{
  ℕ, ◌≡◌, refl, sym, ◌∙◌, subst, inl, inr, Bool, List, [], ◌∷◌, length, Option, none, some, Text,
  Outcome, ok, err, panic, ltb, ◌&&◌, not, Bool-cases,
}
use simple_sip_rs.Sdp.{SdpSession}
use simple_sip_rs.Media.Libraries.{MediaLib}
use simple_sip_rs.Media.Offers.Found.{Offers}
use simple_sip_rs.Media.Opus as Opus
use simple_sip_rs.Media.G711Codec as G711Codec
use simple_sip_rs.Media.Pcmu.Codec as Pcmu
use simple_sip_rs.Media.Pcma.Codec as Pcma
use simple_sip_rs.Media.TelephoneEvents as TelephoneEvents
use simple_sip_rs.Media.TelephoneEvents.{Media, audio, telephone_event, output_empty}
use simple_sip_rs.Media.Codecs.{
  Codec, opus, pcmu, pcma, telephone_events, get_payload_type, decode_payload, append_to_buffer,
  get_next_packet,
}
use simple_sip_rs.Media.Codecs.Negotiation.{name_of, IsOffered}

module _ (l : MediaLib) where
  -- A property of codecs that their methods keep.
  pub record IsKept (P : Codec l → Type 0) : Type 0 where
    pub decoded : (c : Codec l) (payload : Text) → P c → P (decode_payload l c payload).0
    pub appended : (c : Codec l) (media : Media) → P c → P (append_to_buffer l c media).0
    pub sent : (c : Codec l) → P c → P (get_next_packet l c).0

  abbrev SameLabel : Codec l → Codec l → Type 0
  SameLabel c d = (name_of l c ≡ name_of l d) × (get_payload_type l c ≡ get_payload_type l d)

  opus_packed :
      (c : Opus.OpusCodec l) (left : List ℕ) (x : l.opus.Encoder × Option Text)
      → (Opus.encoded l (record c { buffer_out = left }) x).0.payload_type ≡ c.payload_type
  opus_packed c left (e, none) = refl
  opus_packed c left (e, some payload) = refl

  opus_unless :
      (c : Opus.OpusCodec l) (b : List ℕ)
      → (Opus.unless_empty l c b).0.payload_type ≡ c.payload_type
  opus_unless c [] = refl
  opus_unless c (_ ∷ _) = opus_packed c _ _

  opus_decoded :
      (c : Opus.OpusCodec l) (x : l.opus.Decoder × Option (List ℕ))
      → (Opus.decoded l c x).0.payload_type ≡ c.payload_type
  opus_decoded c (d, none) = refl
  opus_decoded c (d, some samples) = refl

  opus_counted :
      (c : Opus.OpusCodec l) (payload : Text) (n : Option ℕ)
      → (Opus.decode_count l c payload n).0.payload_type ≡ c.payload_type
  opus_counted c payload none = refl
  opus_counted c payload (some n) = opus_decoded c _

  opus_sent : (c : Opus.OpusCodec l) → (Opus.get_next_packet l c).0.payload_type ≡ c.payload_type
  unfolding Opus.get_next_packet
  opus_sent c = opus_unless c c.buffer_out

  opus_appended :
      (c : Opus.OpusCodec l) (media : Media)
      → (Opus.append_to_buffer l c media).0.payload_type ≡ c.payload_type
  unfolding Opus.append_to_buffer
  opus_appended c (audio xs) = refl
  opus_appended c (telephone_event k e) = refl
  opus_appended c output_empty = refl

  g711_appended :
      (c : G711Codec.G711Codec l) (media : Media)
      → (G711Codec.append_to_buffer l c media).0.payload_type ≡ c.payload_type
  unfolding G711Codec.append_to_buffer
  g711_appended c (audio xs) = elim (Bool-cases (ltb 5000 (length c.buffer_out))) [
    | inl full ↦ rw full refl
    | inr room ↦ rw room refl
  ]
  g711_appended c (telephone_event k e) = refl
  g711_appended c output_empty = refl

  events_decoded :
      (c : TelephoneEvents.TelephoneEventsCodec)
      (x : Outcome (TelephoneEvents.TelephoneEvent × Bool))
      → (TelephoneEvents.decoded c x).0.payload_type ≡ c.payload_type
  events_decoded c (ok (event, end)) =
      elim (Bool-cases (not end && TelephoneEvents.contains event c.pressed_keys)) [
        | inl held ↦ rw held refl
        | inr new ↦ rw new refl
      ]
  events_decoded c (err e) = refl
  events_decoded c panic = refl

  decoded-SameLabel : (c : Codec l) (payload : Text) → SameLabel (decode_payload l c payload).0 c
  unfolding decode_payload get_payload_type Opus.decode_payload Pcmu.decode_payload
      Pcma.decode_payload TelephoneEvents.decode_payload
  decoded-SameLabel (opus c) payload = (refl, opus_counted c payload _)
  decoded-SameLabel (pcmu c) payload = (refl, refl)
  decoded-SameLabel (pcma c) payload = (refl, refl)
  decoded-SameLabel (telephone_events c) payload = (refl, events_decoded c _)

  appended-SameLabel : (c : Codec l) (media : Media) → SameLabel (append_to_buffer l c media).0 c
  unfolding append_to_buffer get_payload_type Pcmu.append_to_buffer Pcma.append_to_buffer
  appended-SameLabel (opus c) media = (refl, opus_appended c media)
  appended-SameLabel (pcmu c) media = (refl, g711_appended c media)
  appended-SameLabel (pcma c) media = (refl, g711_appended c media)
  appended-SameLabel (telephone_events c) media = (refl, refl)

  sent-SameLabel : (c : Codec l) → SameLabel (get_next_packet l c).0 c
  unfolding get_next_packet get_payload_type Pcmu.get_next_packet Pcma.get_next_packet
      G711Codec.get_next_packet
  sent-SameLabel (opus c) = (refl, opus_sent c)
  sent-SameLabel (pcmu c) = (refl, refl)
  sent-SameLabel (pcma c) = (refl, refl)
  sent-SameLabel (telephone_events c) = (refl, refl)

  same-IsOffered :
      (s : SdpSession) (c d : Codec l) → SameLabel d c → IsOffered l s c → IsOffered l s d
  same-IsOffered s c d (name, type) (m, a, offers, e) =
      (m, a, subst (λ (n : Text). Offers n s.media m a) (sym name) offers, type ∙ e)

  pub IsOffered-IsKept : (s : SdpSession) → IsKept (IsOffered l s)
  IsOffered-IsKept s = record {
    decoded = λ c payload h. same-IsOffered s c _ (decoded-SameLabel c payload) h;
    appended = λ c media h. same-IsOffered s c _ (appended-SameLabel c media) h;
    sent = λ c h. same-IsOffered s c _ (sent-SameLabel c) h;
  }
