-- ===== src/Media/Codecs.antt =====
-- src/media/mod.rs: the codecs of a call as one type, with the methods of the trait `RTPCodec`, and
-- which of them a session description gives.
pub mod Negotiation
pub mod Kept
pub mod Agreement
use simple_sip_rs.Prelude.{
  ℕ, Bool, true, false, List, [], ◌∷◌, ◌++◌, Option, none, some, Text, Outcome, ok, err, panic,
  ◌>>=◌, if◌then◌else◌,
}
use simple_sip_rs.Sdp.{SdpSession, WebrtcSdp}
use simple_sip_rs.Media.Libraries.{MediaLib}
use simple_sip_rs.Media.Features.{Features}
use simple_sip_rs.Media.Opus
use simple_sip_rs.Media.Opus.{OpusCodec}
use simple_sip_rs.Media.G711Codec.{G711Codec}
use simple_sip_rs.Media.Pcmu.Codec as Pcmu
use simple_sip_rs.Media.Pcma.Codec as Pcma
use simple_sip_rs.Media.TelephoneEvents
use simple_sip_rs.Media.TelephoneEvents.{
  Media, audio, telephone_event, output_empty, TelephoneEventsCodec,
}

module _ (l : MediaLib) where
  pub data Codec : Type 0 where
    opus : OpusCodec l → Codec
    pcmu : G711Codec l → Codec
    pcma : G711Codec l → Codec
    telephone_events : TelephoneEventsCodec → Codec

  unfoldable pub get_payload_type : Codec → ℕ
  get_payload_type (opus c) = c.payload_type
  get_payload_type (pcmu c) = c.payload_type
  get_payload_type (pcma c) = c.payload_type
  get_payload_type (telephone_events c) = c.payload_type

  abbrev is_audio : Media → Bool
  is_audio (audio _) = true
  is_audio _ = false

  abbrev is_event : Media → Bool
  is_event (telephone_event _ _) = true
  is_event _ = false

  unfoldable pub can_handle_media : Codec → Media → Bool
  can_handle_media (opus c) media = is_audio media
  can_handle_media (pcmu c) media = is_audio media
  can_handle_media (pcma c) media = is_audio media
  can_handle_media (telephone_events c) media = is_event media

  abbrev within : {S A : Type 0} → (S → Codec) → S × Outcome A → Codec × Outcome A
  within make (c, o) = (make c, o)

  unfoldable pub decode_payload : Codec → Text → Codec × Outcome (Option Media)
  decode_payload (opus c) payload = within opus (Opus.decode_payload l c payload)
  decode_payload (pcmu c) payload = within pcmu (Pcmu.decode_payload l c payload)
  decode_payload (pcma c) payload = within pcma (Pcma.decode_payload l c payload)
  decode_payload (telephone_events c) payload =
      within telephone_events (TelephoneEvents.decode_payload c payload)

  -- Telephone events are not sent.
  unfoldable pub append_to_buffer : Codec → Media → Codec × Outcome (Unit {0})
  append_to_buffer (opus c) media = within opus (Opus.append_to_buffer l c media)
  append_to_buffer (pcmu c) media = within pcmu (Pcmu.append_to_buffer l c media)
  append_to_buffer (pcma c) media = within pcma (Pcma.append_to_buffer l c media)
  append_to_buffer (telephone_events c) media = (telephone_events c, ok tt)

  unfoldable pub get_next_packet : Codec → Codec × Outcome (List l.rtp.Packet)
  get_next_packet (opus c) = within opus (Opus.get_next_packet l c)
  get_next_packet (pcmu c) = within pcmu (Pcmu.get_next_packet l c)
  get_next_packet (pcma c) = within pcma (Pcma.get_next_packet l c)
  get_next_packet (telephone_events c) = (telephone_events c, ok [])

  -- What the packetizers of the three audio codecs draw at random.
  pub record Seeds : Type 0 where
    pub of_opus : ℕ × ℕ
    pub of_pcmu : ℕ × ℕ
    pub of_pcma : ℕ × ℕ

  abbrev pub pushed : {S : Type 0} → (S → Codec) → Option S → List Codec
  pushed make none = []
  pushed make (some c) = make c ∷ []

  -- The lines under `#[cfg(feature = …)]` are there if the feature is on.
  unfoldable pub get_codecs_from_sdp_session :
      WebrtcSdp → Features → Seeds → SdpSession → Outcome (List Codec)
  get_codecs_from_sdp_session w f seeds s = do
    c1 ← if f.opus then Opus.try_from_sdp_session l seeds.of_opus s else ok none
    c2 ← if f.pcmu then Pcmu.try_from_sdp_session l w seeds.of_pcmu s else ok none
    c3 ← if f.pcma then Pcma.try_from_sdp_session l w seeds.of_pcma s else ok none
    let c4 = TelephoneEvents.try_from_sdp s
    ok (pushed opus c1 ++ (pushed pcmu c2 ++ (pushed pcma c3 ++ pushed telephone_events c4)))
