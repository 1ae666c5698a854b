-- ===== src/Sdp.antt =====
-- Session descriptions of the crate `webrtc_sdp`, as far as the repository builds and reads them,
-- and the crate's operations as an interface.
use simple_sip_rs.Prelude.{ℕ, ◌≡◌, Bool, true, false, List, [], ◌∷◌, ◌++◌, Option, some, Text}
use simple_sip_rs.Config.{IpAddr}

pub record Rtpmap : Type 0 where
  pub payload_type : ℕ  -- u8
  pub codec_name : Text
  pub frequency : ℕ  -- u32
  pub channels : Option ℕ

-- The format parameters that the code sets; it sets all others to 0, `false` or nothing.
pub record Fmtp : Type 0 where
  pub payload_type : ℕ  -- u8
  pub maxplaybackrate : ℕ
  pub useinbandfec : Bool
  pub dtmf_tones : Text

pub data SdpAttribute : Type 0 where
  ptime : ℕ → SdpAttribute
  rtpmap : Rtpmap → SdpAttribute
  fmtp : Fmtp → SdpAttribute
  sendrecv rtcp_mux : SdpAttribute
  other_attribute : Text → SdpAttribute

pub data SdpMediaValue : Type 0 where
  audio : SdpMediaValue
  other_media : Text → SdpMediaValue

pub data SdpProtocolValue : Type 0 where
  rtp_avp : SdpProtocolValue
  other_protocol : Text → SdpProtocolValue

pub record SdpMedia : Type 0 where
  pub media : SdpMediaValue
  pub port : ℕ  -- u32
  pub port_count : ℕ
  pub proto : SdpProtocolValue
  pub formats : List ℕ
  pub attributes : List SdpAttribute

pub data ExplicitlyTypedAddress : Type 0 where
  ip : IpAddr → ExplicitlyTypedAddress
  fqdn : Text → ExplicitlyTypedAddress

pub record SdpOrigin : Type 0 where
  pub username : Text
  pub session_id : ℕ
  pub session_version : ℕ
  pub unicast_addr : ExplicitlyTypedAddress

pub record SdpTiming : Type 0 where
  pub start : ℕ
  pub stop : ℕ

pub record SdpSession : Type 0 where
  pub version : ℕ
  pub origin : SdpOrigin
  pub session : Text
  pub connection : Option ExplicitlyTypedAddress
  pub timing : Option SdpTiming
  pub media : List SdpMedia

-- What the code calls of the crate; `none` is the crate's error.
pub record WebrtcSdp : Type 0 where
  pub parse_sdp : Text → Option SdpSession
  pub to_text : SdpSession → Text
  pub add_codec : Rtpmap → SdpMedia → Option SdpMedia
  pub add_attribute : SdpAttribute → SdpMedia → Option SdpMedia
  -- `get_attribute(SdpAttributeType::Ptime)`
  pub get_ptime : SdpMedia → Option SdpAttribute

-- The attributes that the code adds; the crate refuses some of the others for a media line.
abbrev pub is_media_level : SdpAttribute → Bool
is_media_level (other_attribute _) = false
is_media_level _ = true

-- The documented behaviour of the two operations that extend an audio description: they fail on
-- none of the attributes that the code adds, and each adds its attribute at the end.
pub record IsWebrtcSdp (w : WebrtcSdp) : Type 0 where
  pub add_codec_lem :
      (r : Rtpmap) (m : SdpMedia)
      → w.add_codec r m
        ≡ some (record m {
          formats = m.formats ++ r.payload_type ∷ [];
          attributes = m.attributes ++ rtpmap r ∷ [];
        })
  pub add_attribute_lem :
      (a : SdpAttribute) (m : SdpMedia)
      → is_media_level a ≡ true
      → w.add_attribute a m ≡ some (record m { attributes = m.attributes ++ a ∷ [] })
