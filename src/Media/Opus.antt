-- ===== src/Media/Opus.antt =====
-- src/media/opus.rs: the opus codec around the library of that name. What it adds to a session
-- description is in Media/Features.antt.
pub mod Drain
pub mod Order
use simple_sip_rs.Prelude.{
  ℕ, ◌-◌, ◌*◌, ◌/◌, Bool, true, false, List, [], ◌∷◌, ◌++◌, Option, none, some, length, take, drop,
  replicate, Text, codes, Outcome, ok, err, panic, ok_or, ◌>>=◌, codec_failed, ltb, ◌==◌,
  if◌then◌else◌,
}
use simple_sip_rs.Prelude.Word.{u8, u32}
use simple_sip_rs.Sdp.{Rtpmap, SdpMedia, SdpSession}
use simple_sip_rs.Media.Offers.{find_codec}
use simple_sip_rs.Media.TelephoneEvents.{Media, audio}
use simple_sip_rs.Media.Libraries.{MediaLib, OpusChannels, mono, stereo, opus_payloader}

module _ (l : MediaLib) where
  pub record OpusCodec : Type 0 where
    pub ptime : ℕ  -- u32
    pub payload_type : ℕ  -- u8
    pub sample_rate : ℕ  -- u32
    pub channels : ℕ  -- u8
    pub decoder : l.opus.Decoder
    pub encoder : l.opus.Encoder
    pub packetizer : l.rtp.Packetizer
    pub buffer_out : List ℕ

  -- `unwrap_or(1) as u8`
  abbrev pub channels_of : Option ℕ → ℕ
  channels_of none = 1
  channels_of (some n) = u8 n

  abbrev pub opus_channels : ℕ → OpusChannels
  opus_channels n = if n == 2 then stereo else mono

  abbrev pub made : ℕ × ℕ → Option (SdpMedia × Rtpmap) → Outcome (Option OpusCodec)
  made seed none = ok none
  made seed (some (m, a)) = do
    let n = channels_of a.channels
    decoder ← ok_or (l.opus.new_decoder a.frequency (opus_channels n)) codec_failed
    encoder ← ok_or (l.opus.new_encoder a.frequency (opus_channels n)) codec_failed
    ok (
        some (record {
          ptime = 20;
          payload_type = a.payload_type;
          sample_rate = a.frequency;
          channels = n;
          decoder = decoder;
          encoder = encoder;
          packetizer = l.rtp.new_packetizer opus_payloader 400 a.payload_type a.frequency seed;
          buffer_out = [];
        }))

  unfoldable pub try_from_sdp_session : ℕ × ℕ → SdpSession → Outcome (Option OpusCodec)
  try_from_sdp_session seed s = made seed (find_codec (codes "opus") s.media)

  abbrev pub decoded :
      OpusCodec → l.opus.Decoder × Option (List ℕ) → OpusCodec × Outcome (Option Media)
  decoded c (d, none) = (record c { decoder = d }, err codec_failed)
  decoded c (d, some samples) = (record c { decoder = d }, ok (some (audio samples)))

  abbrev pub decode_count : OpusCodec → Text → Option ℕ → OpusCodec × Outcome (Option Media)
  decode_count c payload none = (c, err codec_failed)
  decode_count c payload (some n) =
      decoded c (l.opus.decode_float c.decoder payload (n * c.channels))

  unfoldable pub decode_payload : OpusCodec → Text → OpusCodec × Outcome (Option Media)
  decode_payload c payload = decode_count c payload (l.opus.get_nb_samples c.decoder payload)

  unfoldable pub append_to_buffer : OpusCodec → Media → OpusCodec × Outcome (Unit {0})
  append_to_buffer c (audio buffer) = (record c { buffer_out = c.buffer_out ++ buffer }, ok tt)
  append_to_buffer c _ = (c, ok tt)

  -- The samples of one packet.
  abbrev pub samples_count : OpusCodec → ℕ
  samples_count c = u32 (c.sample_rate / 1000 * c.ptime * c.channels)

  -- `resize(n, 0.0)` of what is not longer.
  abbrev pub resized : ℕ → List ℕ → List ℕ
  resized n samples =
      if ltb (length samples) n then samples ++ replicate (n - length samples) 0 else samples

  abbrev pub packed :
      OpusCodec
      → l.rtp.Packetizer × Option (List l.rtp.Packet)
      → OpusCodec × Outcome (List l.rtp.Packet)
  packed c (p, packets) = (record c { packetizer = p }, ok_or packets codec_failed)

  abbrev pub encoded :
      OpusCodec → l.opus.Encoder × Option Text → OpusCodec × Outcome (List l.rtp.Packet)
  encoded c (e, none) = (record c { encoder = e }, err codec_failed)
  encoded c (e, some payload) =
      packed (record c { encoder = e }) (l.rtp.packetize c.packetizer payload (samples_count c))

  abbrev pub next_frame : OpusCodec → OpusCodec × Outcome (List l.rtp.Packet)
  next_frame c =
      let n : ℕ = samples_count c in
      let taken : ℕ = if ltb (length c.buffer_out) n then length c.buffer_out else n in
      let samples = resized n (take taken c.buffer_out) in
      encoded (record c { buffer_out = drop taken c.buffer_out })
        (l.opus.encode_vec_float c.encoder samples (length samples))

  abbrev pub unless_empty : OpusCodec → List ℕ → OpusCodec × Outcome (List l.rtp.Packet)
  unless_empty c [] = (c, ok [])
  unless_empty c (_ ∷ _) = next_frame c

  unfoldable pub get_next_packet : OpusCodec → OpusCodec × Outcome (List l.rtp.Packet)
  get_next_packet c = unless_empty c c.buffer_out
