-- ===== src/Tests/Playback.antt =====
-- A user that waits for the end of three samples, after a key of the other party.
use simple_sip_rs.Prelude.{ℕ, ◌≡◌, refl, true, false, [], ◌∷◌, replicate, arith}
use simple_sip_rs.Utils as Utils
use simple_sip_rs.Media.Opus as Opus
use simple_sip_rs.Media.TelephoneEvents.{Media, star, telephone_event, output_empty}
use simple_sip_rs.Media.Codecs as Codecs
use simple_sip_rs.Call.RtpSession.{RtpSession, send_next_packet, send_codecs, send_packets}
use simple_sip_rs.Call.RtpSession.Quiet.{ticks}
use simple_sip_rs.Call.Ongoing.{Call, media_ready, block_for_output_empty}
use simple_sip_rs.Call.Ongoing.Playback.{playback_unblocks}
use simple_sip_rs.Tests.Library.{runtime, list_receiver-IsReceiver}
use simple_sip_rs.Tests.MediaLib.{
  media_lib, media_lib-IsMediaLib, udp, media_tx, media_rx, media_tx-IsSender, open_media, tasks,
}
use simple_sip_rs.Tests.Rtp.{codec, session}
use simple_sip_rs.Tests.Ongoing.{user}

abbrev key : Media
key = telephone_event star false

-- The key has been told of, but not yet received.
abbrev playing : RtpSession media_lib udp media_tx media_rx
playing = record session {
  media_channel = record session.media_channel { sender = record open_media { items = key ∷ [] } };
}

abbrev listening : Call runtime media_tx media_rx tasks
listening = record user {
  media_channel = record user.media_channel { receiver = key ∷ output_empty ∷ [] };
}

playback_unblocks_example :
    (n : ℕ) × ((block_for_output_empty runtime media_tx media_rx tasks listening
        (replicate n media_ready)).1
      ≡ true)
unfolding send_next_packet send_codecs send_packets Opus.get_next_packet Codecs.get_next_packet
    Utils.send ticks
playback_unblocks_example =
    playback_unblocks runtime media_tx media_rx tasks media_lib udp 2 playing codec listening []
      (key ∷ []) [] media_lib-IsMediaLib media_tx-IsSender list_receiver-IsReceiver refl refl
      (omega arith) (omega arith) (refl, (refl, (refl, tt))) refl refl
