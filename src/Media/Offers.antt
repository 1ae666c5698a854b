-- ===== src/Media/Offers.antt =====
-- How the codecs of src/media find their line in a session description: the first audio medium that
-- has an `rtpmap` attribute with the codec's name, in any case of letters.
pub mod Found
use simple_sip_rs.Prelude.{
  ℕ, ◌+◌, Bool, true, false, ◌&&◌, List, [], ◌∷◌, Option, none, some, map, Text, text_eq, leb,
  if◌then◌else◌,
}
use simple_sip_rs.Prelude.Word.{u32}
use simple_sip_rs.Sdp.{
  Rtpmap, SdpAttribute, rtpmap, ptime, SdpMediaValue, audio, SdpMedia, WebrtcSdp,
}

-- `to_lowercase` on a text that is compared with ASCII letters; no letter outside ASCII has one of
-- those that the codecs' names are made of for its lower case.
abbrev to_lower : ℕ → ℕ
to_lower c = if leb 65 c && leb c 90 then c + 32 else c

unfoldable pub to_lowercase : Text → Text
to_lowercase t = map to_lower t

abbrev pub is_audio : SdpMediaValue → Bool
is_audio audio = true
is_audio _ = false

-- The first `rtpmap` of the name among the attributes.
unfoldable pub find_rtpmap : Text → List SdpAttribute → Option Rtpmap
find_rtpmap name [] = none
find_rtpmap name (rtpmap a ∷ attributes) =
    let later = find_rtpmap name attributes in
    if text_eq (to_lowercase a.codec_name) name then some a else later
find_rtpmap name (_ ∷ attributes) = find_rtpmap name attributes

abbrev pub or_later :
    SdpMedia → Option Rtpmap → Option (SdpMedia × Rtpmap) → Option (SdpMedia × Rtpmap)
or_later m none later = later
or_later m (some a) later = some (m, a)

unfoldable pub find_codec : Text → List SdpMedia → Option (SdpMedia × Rtpmap)
find_codec name [] = none
find_codec name (m ∷ media) =
    let later = find_codec name media in
    if is_audio m.media then or_later m (find_rtpmap name m.attributes) later else later

abbrev ptime_or : Option SdpAttribute → ℕ
ptime_or (some (ptime n)) = n
ptime_or _ = 20

-- The packet time of a medium in milliseconds, 20 where it gives none.
unfoldable pub ptime_of : WebrtcSdp → SdpMedia → ℕ
ptime_of w m = ptime_or (w.get_ptime m)
