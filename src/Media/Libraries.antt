-- ===== src/Media/Libraries.antt =====
-- The libraries that carry the audio, as interfaces: `rtp` (packets and the packetizer), `opus`, and
-- `fon` (resampling). A sample is the bit pattern of an `f32`, so that 0 is silence; `none` is a
-- library's error.
use simple_sip_rs.Prelude.{ℕ, ◌≡◌, List, [], ◌++◌, Option, some, Text}

pub data Payloader : Type 0 where
  g711_payloader opus_payloader : Payloader

-- `new_packetizer` takes the size of a packet, the payload type, the clock rate, and what it draws at
-- random: the source identifier and the first sequence number.
pub record RtpLib : Type 1 where
  pub Packet : Type 0
  pub payload_type : Packet → ℕ
  pub payload : Packet → Text
  pub marshal : Packet → Option Text
  pub unmarshal : Text → Option Packet
  pub Packetizer : Type 0
  pub new_packetizer : Payloader → ℕ → ℕ → ℕ → ℕ × ℕ → Packetizer
  pub packetize : Packetizer → Text → ℕ → Packetizer × Option (List Packet)

pub data OpusChannels : Type 0 where
  mono stereo : OpusChannels

-- `heard` is what an encoder has been given. `decode_float` fills a buffer of the given length.
pub record OpusLib : Type 1 where
  pub Decoder : Type 0
  pub Encoder : Type 0
  pub new_decoder : ℕ → OpusChannels → Option Decoder
  pub new_encoder : ℕ → OpusChannels → Option Encoder
  pub get_nb_samples : Decoder → Text → Option ℕ
  pub decode_float : Decoder → Text → ℕ → Decoder × Option (List ℕ)
  pub encode_vec_float : Encoder → List ℕ → ℕ → Encoder × Option Text
  pub heard : Encoder → List ℕ

-- 16-bit mono samples at a rate to interleaved stereo at 48000 Hz, and back.
pub record Fon : Type 0 where
  pub to_stereo_48k : ℕ → List ℕ → List ℕ
  pub from_stereo_48k : ℕ → List ℕ → List ℕ

pub record MediaLib : Type 1 where
  pub rtp : RtpLib
  pub opus : OpusLib
  pub fon : Fon

-- The documented behaviour that theorems rely on: there is nothing to pack in an empty payload,
-- nothing comes of no samples, and an encoder takes all that it is given.
pub record IsMediaLib (l : MediaLib) : Type 0 where
  pub packetize_nil : (p : l.rtp.Packetizer) (n : ℕ) → (l.rtp.packetize p [] n).1 ≡ some []
  pub from_stereo_nil : (rate : ℕ) → l.fon.from_stereo_48k rate [] ≡ []
  pub heard_encode :
      (e : l.opus.Encoder) (samples : List ℕ) (n : ℕ)
      → l.opus.heard (l.opus.encode_vec_float e samples n).0 ≡ l.opus.heard e ++ samples
