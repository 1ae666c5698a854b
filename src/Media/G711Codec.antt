-- ===== src/Media/G711Codec.antt =====
-- What src/media/pcmu.rs and src/media/pcma.rs have in common around their sample coding: the state of
-- the codec, its making from a session description, and its buffer of samples that go out.
pub mod Buffer
pub mod Quality
use simple_sip_rs.Prelude.{
  ℕ, ◌+◌, ◌-◌, ◌*◌, ◌/◌, Bool, true, false, List, [], ◌∷◌, ◌++◌, Option, none, some, map, length,
  take, drop, replicate, Text, Outcome, ok, err, ok_or, codec_failed, ltb, if◌then◌else◌,
}
use simple_sip_rs.Prelude.Word.{u32}
use simple_sip_rs.Sdp.{Rtpmap, SdpMedia, SdpSession, WebrtcSdp}
use simple_sip_rs.Media.Offers.{find_codec, ptime_of}
use simple_sip_rs.Media.TelephoneEvents.{Media, audio}
use simple_sip_rs.Media.Libraries.{MediaLib, g711_payloader}

-- `extend` by `take_length - samples.len()` zeros.
abbrev pub padded : ℕ → ℕ → List ℕ → List ℕ
padded count taken samples =
    if ltb (length samples) count then samples ++ replicate (taken - length samples) 0 else samples

module _ (l : MediaLib) where
  pub record G711Codec : Type 0 where
    pub ptime : ℕ  -- u32
    pub payload_type : ℕ  -- u8
    pub sample_rate : ℕ  -- u32
    pub packetizer : l.rtp.Packetizer
    pub buffer_out : List ℕ

  abbrev pub made : WebrtcSdp → ℕ × ℕ → Option (SdpMedia × Rtpmap) → Option G711Codec
  made w seed none = none
  made w seed (some (m, a)) = some (record {
    ptime = u32 (ptime_of w m);
    payload_type = a.payload_type;
    sample_rate = a.frequency;
    packetizer = l.rtp.new_packetizer g711_payloader 300 a.payload_type a.frequency seed;
    buffer_out = [];
  })

  unfoldable pub try_from_sdp_session :
      WebrtcSdp → Text → ℕ × ℕ → SdpSession → Outcome (Option G711Codec)
  try_from_sdp_session w name seed s = ok (made w seed (find_codec name s.media))

  -- Samples are taken as long as there are not more than 5000 in the buffer, and else dropped.
  unfoldable pub append_to_buffer : G711Codec → Media → G711Codec × Outcome (Unit {0})
  append_to_buffer c (audio buffer) =
      if ltb 5000 (length c.buffer_out)
      then (c, ok tt)
      else (record c { buffer_out = c.buffer_out ++ buffer }, ok tt)
  append_to_buffer c _ = (c, ok tt)

  -- The samples of one packet.
  abbrev pub samples_count : G711Codec → ℕ
  samples_count c = u32 (48000 / 1000 * c.ptime * 2)

  abbrev pub take_length : G711Codec → ℕ
  take_length c =
      if ltb (length c.buffer_out) (samples_count c) then length c.buffer_out else samples_count c

  abbrev pub packed :
      G711Codec
      → l.rtp.Packetizer × Option (List l.rtp.Packet)
      → G711Codec × Outcome (List l.rtp.Packet)
  packed c (p, packets) = (record c { packetizer = p }, ok_or packets codec_failed)

  module _ (encode decode : ℕ → ℕ) where
    unfoldable pub decode_payload : G711Codec → Text → G711Codec × Outcome (Option Media)
    decode_payload c payload =
        (c, ok (some (audio (l.fon.to_stereo_48k c.sample_rate (map decode payload)))))

    unfoldable pub get_next_packet : G711Codec → G711Codec × Outcome (List l.rtp.Packet)
    get_next_packet c =
        let n = take_length c in
        let samples = padded (samples_count c) n (take n c.buffer_out) in
        let payload = map encode (l.fon.from_stereo_48k c.sample_rate samples) in
        packed (record c { buffer_out = drop n c.buffer_out })
          (l.rtp.packetize c.packetizer payload c.sample_rate)
