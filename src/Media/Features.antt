-- ===== src/Media/Features.antt =====
-- src/media/mod.rs: the codecs that the crate's features switch on, and what each of them adds to
-- a session description (`populate_sdp_media` of src/media/opus.rs, pcmu.rs, pcma.rs and
-- telephone_events.rs).
use simple_sip_rs.Prelude.{
  Bool, true, [], none, some, codes, Outcome, ok, ok_or, bad_sdp, ◌>>=◌, if◌then◌else◌,
}
use simple_sip_rs.Sdp.{Rtpmap, Fmtp, fmtp, SdpAttribute, SdpMedia, WebrtcSdp}

pub record Features : Type 0 where
  pub opus : Bool
  pub pcmu : Bool
  pub pcma : Bool

abbrev pub opus_rtpmap : Rtpmap
opus_rtpmap = record {
  payload_type = 107;
  codec_name = codes "opus";
  frequency = 48000;
  channels = some 2;
}

abbrev pub opus_fmtp : Fmtp
opus_fmtp = record {
  payload_type = 107;
  maxplaybackrate = 48000;
  useinbandfec = true;
  dtmf_tones = [];
}

abbrev pub pcmu_rtpmap : Rtpmap
pcmu_rtpmap = record {
  payload_type = 0;
  codec_name = codes "PCMU";
  frequency = 8000;
  channels = none;
}

abbrev pub pcma_rtpmap : Rtpmap
pcma_rtpmap = record {
  payload_type = 0;
  codec_name = codes "PCMA";
  frequency = 8000;
  channels = none;
}

abbrev pub telephone_rtpmap : Rtpmap
telephone_rtpmap = record {
  payload_type = 101;
  codec_name = codes "telephone-event";
  frequency = 8000;
  channels = none;
}

abbrev pub telephone_fmtp : Fmtp
telephone_fmtp = record {
  payload_type = 101;
  maxplaybackrate = 0;
  useinbandfec = true;
  dtmf_tones = codes "0-15";
}

module _ (w : WebrtcSdp) where
  abbrev add_codec : Rtpmap → SdpMedia → Outcome SdpMedia
  add_codec r m = ok_or (w.add_codec r m) bad_sdp

  abbrev pub add_attribute : SdpAttribute → SdpMedia → Outcome SdpMedia
  add_attribute a m = ok_or (w.add_attribute a m) bad_sdp

  unfoldable pub opus_populate : SdpMedia → Outcome SdpMedia
  opus_populate m = do m' ← add_codec opus_rtpmap m; add_attribute (fmtp opus_fmtp) m'

  unfoldable pub pcmu_populate : SdpMedia → Outcome SdpMedia
  pcmu_populate m = add_codec pcmu_rtpmap m

  unfoldable pub pcma_populate : SdpMedia → Outcome SdpMedia
  pcma_populate m = add_codec pcma_rtpmap m

  unfoldable pub telephone_populate : SdpMedia → Outcome SdpMedia
  telephone_populate m = do
    m' ← add_codec telephone_rtpmap m
    add_attribute (fmtp telephone_fmtp) m'

  -- The lines under `#[cfg(feature = …)]` are there if the feature is on.
  unfoldable pub populate_sdp_media_from_codecs : Features → SdpMedia → Outcome SdpMedia
  unfolding opus_populate pcmu_populate pcma_populate telephone_populate
  populate_sdp_media_from_codecs f m = do
    m1 ← if f.opus then opus_populate m else ok m
    m2 ← if f.pcmu then pcmu_populate m1 else ok m1
    m3 ← if f.pcma then pcma_populate m2 else ok m2
    telephone_populate m3
