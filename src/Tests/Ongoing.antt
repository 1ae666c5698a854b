-- ===== src/Tests/Ongoing.antt =====
-- A call whose task ends by the `BYE` of the other party.
use simple_sip_rs.Prelude.{ℕ, ◌≡◌, refl, true, false, [], ◌∷◌}
use simple_sip_rs.Utils as Utils
use simple_sip_rs.Sip.{request, bye}
use simple_sip_rs.Call.Session.{find_map}
use simple_sip_rs.Call.Runtime as Runtime
use simple_sip_rs.Call.Dialog.{get_headers_response}
use simple_sip_rs.Call.Runtime.{audio_out_empty, hangup, finished}
use simple_sip_rs.Call.Handler.{
  CallHandler, sip_ready, handle_sip_message, handle_next, is_running, run, call_task,
}
use simple_sip_rs.Call.Handler as Handler
use simple_sip_rs.Call.Ongoing.{Call, block_for_finished}
use simple_sip_rs.Call.Ongoing.Waiting.{block_never_returns, task_end_unblocks}
use simple_sip_rs.Tests.Library.{
  simple_rsip, runtime, log_sender-IsSender, list_receiver-IsReceiver, plain_uri,
}
use simple_sip_rs.Tests.Calls.{handler, with_method, bye_headers}
use simple_sip_rs.Tests.MediaLib.{media_tx, media_rx, open_media, tasks}

abbrev rung_off : CallHandler runtime
rung_off = record handler {
  connection = record handler.connection { receiver = request (with_method bye bye_headers) ∷ [] };
}

abbrev pub user : Call runtime media_tx media_rx tasks
user = record {
  call_handle = true;
  rtp_handle = true;
  remote_uri = plain_uri;
  call_channel = record { sender = handler.call_channel.sender; receiver = finished ∷ [] };
  media_channel = record { sender = open_media; receiver = [] };
}

task_end_unblocks_example :
    (fuel : ℕ) × ((block_for_finished runtime media_tx media_rx tasks fuel user).1 ≡ true)
unfolding find_map run is_running Utils.one_sided handle_next Runtime.recv handle_sip_message
    Handler.handle_sip_request Handler.handle_bye_request get_headers_response Runtime.send_message
    Handler.notify_call_hangup Utils.send call_task
task_end_unblocks_example =
    task_end_unblocks runtime media_tx media_rx tasks simple_rsip rung_off ((sip_ready, []) ∷ [])
      user (hangup ∷ []) [] log_sender-IsSender list_receiver-IsReceiver refl refl refl

-- The message that the call is over has been received before.
abbrev over : Call runtime media_tx media_rx tasks
over = record user { call_channel = record user.call_channel { receiver = audio_out_empty ∷ [] } }

block_never_returns_example : (block_for_finished runtime media_tx media_rx tasks 5 over).1 ≡ false
block_never_returns_example =
    block_never_returns runtime media_tx media_rx tasks 5 over (audio_out_empty ∷ [])
      list_receiver-IsReceiver refl (refl, tt)
