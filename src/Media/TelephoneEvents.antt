-- ===== src/Media/TelephoneEvents.antt =====
-- src/media/telephone_events.rs: the keys that the peer presses. What the codec adds to a session
-- description is in Media/Features.antt.
pub mod Presses
use simple_sip_rs.Prelude.{
  ℕ, Bool, true, false, not, ◌&&◌, ◌||◌, ◌==◌, List, [], ◌∷◌, Option, none, some, get_elem?, Text,
  Outcome, codes, ok, err, ok_or, ◌>>=◌, invalid_byte, bad_body, if◌then◌else◌,
}
use simple_sip_rs.Prelude.Bits.{bit_and}
use simple_sip_rs.Sdp.{Rtpmap, SdpMedia, SdpSession}
use simple_sip_rs.Media.Offers.{find_codec}

pub data TelephoneEvent : Type 0 where
  key_zero one two three four five six seven eight nine star hash a b c d : TelephoneEvent

-- The discriminant. `key_zero` is `Zero`.
unfoldable pub byte_of : TelephoneEvent → ℕ
byte_of key_zero = 0
byte_of one = 1
byte_of two = 2
byte_of three = 3
byte_of four = 4
byte_of five = 5
byte_of six = 6
byte_of seven = 7
byte_of eight = 8
byte_of nine = 9
byte_of star = 10
byte_of hash = 11
byte_of a = 12
byte_of b = 13
byte_of c = 14
byte_of d = 15

abbrev events : List TelephoneEvent
events =
    key_zero ∷ one ∷ two ∷ three ∷ four ∷ five ∷ six ∷ seven ∷ eight ∷ nine ∷ star ∷ hash ∷ a ∷ b
    ∷ c ∷ d ∷ []

unfoldable pub try_from_byte : ℕ → Outcome TelephoneEvent
try_from_byte n = ok_or (get_elem? events n) invalid_byte

-- `Media` of src/call/mod.rs: samples, by their bit patterns, a key and whether it was released, and
-- the end of the output.
pub data Media : Type 0 where
  audio : List ℕ → Media
  telephone_event : TelephoneEvent → Bool → Media
  output_empty : Media

pub record TelephoneEventsCodec : Type 0 where
  pub payload_type : ℕ  -- u8
  pub pressed_keys : List TelephoneEvent

abbrev pub made : Option (SdpMedia × Rtpmap) → Option TelephoneEventsCodec
made none = none
made (some (_, found)) = some (record { payload_type = found.payload_type; pressed_keys = [] })

unfoldable pub try_from_sdp : SdpSession → Option TelephoneEventsCodec
try_from_sdp s = made (find_codec (codes "telephone-event") s.media)

abbrev pub same_key : TelephoneEvent → TelephoneEvent → Bool
same_key k j = byte_of k == byte_of j

-- The set of keys as a list.
unfoldable pub contains : TelephoneEvent → List TelephoneEvent → Bool
contains k [] = false
contains k (j ∷ keys) = same_key k j || contains k keys

unfoldable pub remove : TelephoneEvent → List TelephoneEvent → List TelephoneEvent
remove k [] = []
remove k (j ∷ keys) = let later = remove k keys in if same_key k j then later else j ∷ later

unfoldable pub insert : TelephoneEvent → List TelephoneEvent → List TelephoneEvent
insert k keys = if contains k keys then keys else k ∷ keys

abbrev pub is_end : ℕ → Bool
is_end flags = not (bit_and flags 0b1000_0000 == 0)

abbrev pub decoded :
    TelephoneEventsCodec
    → Outcome (TelephoneEvent × Bool)
    → TelephoneEventsCodec × Outcome (Option Media)
decoded codec (ok (event, end)) =
    if not end && contains event codec.pressed_keys then (codec, ok none) else (
      record codec {
        pressed_keys =
            if end then remove event codec.pressed_keys else insert event codec.pressed_keys;
      },
      ok (some (telephone_event event end)),
    )
decoded codec (err e) = (codec, err e)
decoded codec Outcome.panic = (codec, Outcome.panic)

abbrev read : List ℕ → Outcome (TelephoneEvent × Bool)
read payload = do
  first ← ok_or (get_elem? payload 0) bad_body
  event ← try_from_byte first
  flags ← ok_or (get_elem? payload 1) bad_body
  ok (event, is_end flags)

unfoldable pub decode_payload :
    TelephoneEventsCodec → List ℕ → TelephoneEventsCodec × Outcome (Option Media)
decode_payload codec payload = decoded codec (read payload)
