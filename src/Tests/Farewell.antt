-- ===== src/Tests/Farewell.antt =====
-- A `BYE` that the server sends for a call.
use simple_sip_rs.Prelude.{
  ℕ, ◌≡◌, refl, ◌⊎◌, true, false, List, [], ◌∷◌, ◌++◌, some, codes, ok, Text, text_eq, arith,
}
use simple_sip_rs.Sip as Sip
use simple_sip_rs.Sip.{bye, v2, Request, SipMessage, request}
use simple_sip_rs.Utils as Utils
use simple_sip_rs.Call.Session.{find_map}
use simple_sip_rs.Call.Dialog.{get_headers_response}
use simple_sip_rs.Call.Runtime as Runtime
use simple_sip_rs.Call.Runtime.{CallControl, finished}
use simple_sip_rs.Call.Handler as Handler
use simple_sip_rs.Call.Handler.{
  CallHandler, control_ready, sip_ready, is_running, run, call_task, handle_next,
  handle_sip_message,
}
use simple_sip_rs.Call.Handler.Ending.{messages}
use simple_sip_rs.Call.Handler.Closing.{Closed, Rung, told}
use simple_sip_rs.Call.Handler.Once.{ends_once}
use simple_sip_rs.Call.Ongoing.{block_for_finished}
use simple_sip_rs.Connection.SocketData.{lookup, update}
use simple_sip_rs.Connection.Socket.Messages as Messages
use simple_sip_rs.Connection.Socket.Messages.{Fresh, Ready, read_ready, outbox_ready}
use simple_sip_rs.Connection.Socket.Routing.{channel_of}
use simple_sip_rs.Connection.Socket.Delivered.{of_call, IsOpen}
use simple_sip_rs.Connection.Socket.Demux.{reads, demultiplexed}
use simple_sip_rs.Connection.Socket.Farewell.{bye_ends_call}
use simple_sip_rs.Tests.Library.{
  Log, simple_rsip, simple_rsip-IsRsip, simple_sdp, runtime, runtime-IsSender, runtime-IsReceiver,
  log_sender-IsSender, list_receiver-IsReceiver,
}
use simple_sip_rs.Tests.Calls.{handler, with_method}
use simple_sip_rs.Tests.MediaLib.{media_tx, media_rx, tasks}
use simple_sip_rs.Tests.Ongoing.{user}
use simple_sip_rs.Tests.Socket.{net, calls, features, opened, fresh, Script, socket}

abbrev bye_of : Text → Request
bye_of id = with_method bye (
    record { kind = Sip.call_id; value = id }
    ∷ record { kind = Sip.via; value = 5 ∷ [] }
    ∷ record { kind = Sip.cseq; value = simple_rsip.cseq_text 9 bye }
    ∷ [])

-- A BYE for another call, and one for this one.
abbrev script : Script
script = ok (request (bye_of (codes "b"))) ∷ ok (request (bye_of (codes "a"))) ∷ []

abbrev rounds : List (Ready × Fresh runtime)
rounds = (read_ready, fresh) ∷ (read_ready, fresh) ∷ (outbox_ready, fresh) ∷ []

abbrev IsAccepting : Log SipMessage → Type 0
IsAccepting s = s.open_end ≡ true

log-IsOpen : IsOpen simple_rsip net runtime calls simple_sdp features IsAccepting
log-IsOpen = record { accepts = λ s m h. ground arith; stays = λ s m h. ground arith }

demultiplexed_example :
    (tx' : Log SipMessage) × (channel_of simple_rsip net runtime calls
        (Messages.run simple_rsip net runtime calls simple_sdp features (socket script) rounds).0
        (codes "a")
      ≡ some tx')
    × IsAccepting tx'
    × (tx'.items
        ≡ []
          ++ of_call simple_rsip
              (codes "a")
              (reads simple_rsip net runtime calls simple_sdp features (socket script) rounds))
unfolding lookup text_eq
demultiplexed_example =
    demultiplexed simple_rsip net runtime calls simple_sdp features log-IsOpen runtime-IsSender
      (codes "a") (socket script) rounds opened refl refl

-- The call gets the BYE.
abbrev rung_off : CallHandler runtime
rung_off = record handler {
  connection = record handler.connection { receiver = request (bye_of (codes "a")) ∷ [] };
}

abbrev schedule : List (Handler.Ready × Text)
schedule = (control_ready, []) ∷ (sip_ready, []) ∷ (sip_ready, []) ∷ []

ends_once_example :
    let before = run simple_rsip runtime rung_off schedule in
    let h' = call_task simple_rsip runtime rung_off schedule in
    let taken = (runtime.control_tx.send before.call_channel.sender finished).1 in
    Closed (messages simple_rsip runtime rung_off) (messages simple_rsip runtime h')
    × Rung (told simple_rsip runtime rung_off) (told simple_rsip runtime before)
    × (((taken ≡ true)
          × (told simple_rsip runtime h' ≡ told simple_rsip runtime before ++ finished ∷ []))
        ⊎ ((taken ≡ false) × (told simple_rsip runtime h' ≡ told simple_rsip runtime before)))
ends_once_example =
    ends_once simple_rsip runtime runtime-IsSender log_sender-IsSender rung_off schedule

bye_ends_call_example :
    (is_running simple_rsip runtime (run simple_rsip runtime rung_off schedule) ≡ false)
    × ((fuel : ℕ) × ((block_for_finished runtime media_tx media_rx tasks fuel user).1 ≡ true))
unfolding find_map run is_running Utils.one_sided Utils.recv handle_next Runtime.recv
    handle_sip_message Handler.handle_sip_request Handler.handle_bye_request get_headers_response
    Runtime.send_message Handler.notify_call_hangup Utils.send call_task lookup text_eq reads
    Messages.round Messages.handle_call_message Messages.handle_message Messages.handle_sip_request
    Messages.run update
bye_ends_call_example =
    bye_ends_call simple_rsip net runtime calls simple_sdp features media_tx media_rx tasks
      (socket script) rounds (codes "a") opened
      (record opened { items = request (bye_of (codes "a")) ∷ [] }) rung_off schedule user [] [] []
      [] (CallControl.hangup ∷ []) [] (bye_of (codes "a")) (5 ∷ []) 9 bye log-IsOpen
      simple_rsip-IsRsip runtime-IsSender runtime-IsReceiver refl refl refl refl refl refl tt
      (omega arith) refl refl refl log_sender-IsSender list_receiver-IsReceiver refl refl refl
