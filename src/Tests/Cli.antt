-- ===== src/Tests/Cli.antt =====
-- The softphone over the concrete libraries.
use simple_sip_rs.Prelude.{
  ℕ, ◌<◌, ◌+◌, ◌≡◌, refl, ◌⊎◌, true, false, List, [], ◌∷◌, ◌++◌, none, some, text_eq, codes, ok,
  err, panic, send_failed, arith, length,
}
use simple_sip_rs.Sip.{request, response, ringing}
use simple_sip_rs.Media.TelephoneEvents.{audio}
use simple_sip_rs.Call.Session.{find_map}
use simple_sip_rs.Call.Runtime.{CallControl}
use simple_sip_rs.Call.Outgoing.{generate_invite, generate_cancel}
use simple_sip_rs.Call.Ongoing.{Call, media_ready, recv_either, send_audio}
use simple_sip_rs.Utils.{recv, send}
use simple_sip_rs.Cli.{fill, output_callback, handle_current_call}
use simple_sip_rs.Connection.SocketData.{lookup}
use simple_sip_rs.Manager.{InnerSipManager}
use simple_sip_rs.Cli.Commands.{Program, Supply, handle_command_input}
use simple_sip_rs.Cli.Session.{
  Event, tick, message_ready, message_lost, line_read, output_due, input_due, input_appended,
  main_loop, initial, round,
}
use simple_sip_rs.Cli.Output.{Part, samples_of, sizes, rendered, IsPlayed}
use simple_sip_rs.Cli.Playback.{heard_by, due_by, over_run, audio_played}
use simple_sip_rs.Cli.Recording.{recording_bounded}
use simple_sip_rs.Cli.Ending.{over_panics}
use simple_sip_rs.Cli.Unanswered.{to_call, unanswered_cancelled}
use simple_sip_rs.Tests.Library.{
  Log, simple_rsip, simple_sdp, simple_sdp-IsWebrtcSdp, digest, runtime, runtime-IsSender,
  runtime-IsReceiver,
}
use simple_sip_rs.Tests.Calls.{res_of}
use simple_sip_rs.Tests.MediaLib.{media_tx, media_rx, open_media, tasks}
use simple_sip_rs.Tests.Manager.{calls, incoming, fresh, connected, manager, both, ids}
use simple_sip_rs.Tests.Ongoing.{user}

abbrev sample : ℕ → ℕ
sample x = x

abbrev State : Type 0
State = Program runtime media_tx media_rx tasks calls incoming

abbrev idle : State
idle =
    initial simple_rsip runtime simple_sdp digest both media_tx media_rx tasks calls incoming sample
      manager

abbrev open_control : Log CallControl
open_control = record { open_end = true; items = [] }

-- The other party rings, and nothing more comes in time.
abbrev supply : Supply runtime media_tx media_rx tasks
supply = record {
  peek_messages = 1;
  search_fuel = 1;
  uuid = [];
  ids = ids;
  message_ends = (fresh, response (res_of ringing) ∷ []);
  control_ends = ((open_control, []), (open_control, []));
  media_ends = ((open_media, []), (open_media, []));
  handles = (false, false);
}

abbrev listening : Call runtime media_tx media_rx tasks
listening = record user {
  media_channel = record user.media_channel {
    receiver = audio (9 ∷ []) ∷ audio (1 ∷ 2 ∷ 3 ∷ []) ∷ [];
  };
}

abbrev talking : State
talking = record {
  sip_manager = manager;
  current_call = some listening;
  buffer_play = [];
  recorder = record { buffer_record = []; pending = none };
  dropped = [];
  spawned = [];
  played = [];
}

abbrev events : List (Event runtime media_tx media_rx tasks)
events =
    output_due 1
    ∷ message_lost media_ready
    ∷ message_ready media_ready
    ∷ output_due 2
    ∷ input_due (7 ∷ [])
    ∷ input_appended
    ∷ tick
    ∷ output_due 2
    ∷ []

heard_then_silence :
    (main_loop simple_rsip runtime simple_sdp digest both media_tx media_rx tasks calls incoming
      sample talking events).0.played
    ≡ 0 ∷ 1 ∷ 2 ∷ 3 ∷ 0 ∷ []
unfolding main_loop round handle_current_call recv_either recv send send_audio output_callback fill
heard_then_silence = refl

audio_played_example :
    let p' =
      (main_loop simple_rsip runtime simple_sdp digest both media_tx media_rx tasks calls incoming
        sample talking events).0 in
    let over =
      over_run simple_rsip runtime simple_sdp digest both media_tx media_rx tasks calls incoming
        sample in
    ((n : ℕ) (buffer : List ℕ) → IsPlayed sample n buffer)
    × ((parts : List Part) × (p'.played ≡ [] ++ rendered sample parts)
        × (samples_of parts ++ p'.buffer_play
            ≡ []
              ++ over
                  (heard_by simple_rsip runtime simple_sdp digest both media_tx media_rx tasks calls
                    incoming sample)
                  talking
                  events)
        × (sizes parts
            ≡ over
                (due_by simple_rsip runtime simple_sdp digest both media_tx media_rx tasks calls
                  incoming sample)
                talking
                events))
audio_played_example =
    audio_played simple_rsip runtime simple_sdp digest both media_tx media_rx tasks calls incoming
      sample talking events

recording_bounded_example :
    let p' =
      (main_loop simple_rsip runtime simple_sdp digest both media_tx media_rx tasks calls incoming
        sample
        (initial simple_rsip runtime simple_sdp digest both media_tx media_rx tasks calls incoming
          sample manager)
        events).0 in
    length p'.recorder.buffer_record < 5000 + 1
recording_bounded_example =
    recording_bounded simple_rsip runtime simple_sdp digest both media_tx media_rx tasks calls
      incoming sample manager 1 events (tt, (tt, (tt, (tt, (omega arith, (tt, (tt, (tt, tt))))))))

-- The tasks of the call have ended.
abbrev over_call : Call runtime media_tx media_rx tasks
over_call = record user {
  call_channel = record user.call_channel { sender = record open_control { open_end = false } };
  media_channel = record user.media_channel { sender = record open_media { open_end = false } };
}

over_panics_example :
    let p = record talking { current_call = some over_call } in
    let loop =
      main_loop simple_rsip runtime simple_sdp digest both media_tx media_rx tasks calls incoming
        sample in
    ((loop p (tick ∷ events)).1 ≡ some panic)
    × ((loop p (line_read supply (ok (some (codes "hangup"))) ∷ events)).1 ≡ some panic)
    × ((loop p (line_read supply (ok none) ∷ events)).1 ≡ some panic)
over_panics_example =
    over_panics simple_rsip runtime simple_sdp digest both media_tx media_rx tasks calls incoming
      sample (record talking { current_call = some over_call }) over_call supply events refl refl
      refl

unanswered_cancelled_example :
    let (p', o) =
      handle_command_input simple_rsip runtime simple_sdp digest both media_tx media_rx tasks calls
        incoming supply
        (codes "call bob")
        talking in
    let c =
      to_call simple_rsip runtime simple_sdp digest both media_tx media_rx tasks calls incoming
        supply talking connected
        (codes "bob") in
    let invite = request (generate_invite simple_rsip runtime simple_sdp c) in
    let cancel = request (generate_cancel simple_rsip runtime simple_sdp c) in
    (p'.current_call ≡ some listening)
    × ((i' : InnerSipManager runtime tasks) × (p'.sip_manager.inner ≡ some i')
        × (((o ≡ some (ok tt)) × (i'.message_sender.items ≡ [] ++ invite ∷ cancel ∷ []))
            ⊎ ((o ≡ some (err send_failed)) × (i'.message_sender.items ≡ [] ++ invite ∷ []))))
unfolding find_map lookup text_eq
unanswered_cancelled_example =
    unanswered_cancelled simple_rsip runtime simple_sdp digest both media_tx media_rx tasks calls
      incoming supply talking connected (codes "bob") (response (res_of ringing) ∷ []) []
      simple_sdp-IsWebrtcSdp runtime-IsSender runtime-IsReceiver (refl, (refl, (refl, tt))) refl
      refl refl refl ((refl, refl), tt) refl
