-- ===== src/Tests/Manager.antt =====
-- A session with the server over the concrete libraries.
use simple_sip_rs.Prelude.{
  List, none, Option, Outcome, ◌+◌, ◌*◌, ◌%◌, arith, ◌≡◌, refl, ◌⊎◌, true, false, [], ◌∷◌, ◌++◌,
  some, codes, Text, text_eq, ok, err, send_failed,
}
use simple_sip_rs.Context.{from_config, get_next_udp_port}
use simple_sip_rs.Context.Ports.{port_count}
use simple_sip_rs.Channels.{Sender, Receiver}
use simple_sip_rs.Sip.{SipMessage, request}
use simple_sip_rs.Media.Features.{Features, populate_sdp_media_from_codecs}
use simple_sip_rs.SipProto.Sdp.{generate_sdp_new}
use simple_sip_rs.Call.Runtime.{send_message}
use simple_sip_rs.Call.Incoming.{IncomingCall}
use simple_sip_rs.Call.Outgoing.{OutgoingCall, generate_invite, send_invite, try_from}
use simple_sip_rs.Connection.SocketData.{lookup, create_call_channel}
use simple_sip_rs.Manager.{InnerSipManager, SipManager}
use simple_sip_rs.Manager.Placing.{Ids, call, inner_call}
use simple_sip_rs.Manager.Invited.{prepared, call_placed}
use simple_sip_rs.Manager.Ports.{Placement, place, place_all, nth_call_port}
use simple_sip_rs.Tests.Library.{
  Log, log_sender, list_receiver, simple_rsip, simple_sdp, simple_sdp-IsWebrtcSdp, runtime,
  runtime-IsSender, config,
}
use simple_sip_rs.Tests.Calls.{invited}
use simple_sip_rs.Tests.MediaLib.{tasks}

abbrev pub calls : Sender (IncomingCall runtime)
calls = log_sender (IncomingCall runtime)

abbrev pub incoming : Receiver (IncomingCall runtime)
incoming = list_receiver (IncomingCall runtime)

abbrev pub fresh : Log SipMessage
fresh = record { open_end = true; items = [] }

abbrev pub connected : InnerSipManager runtime tasks
connected = record {
  socket_data = record { call_channels = (codes "a", fresh) ∷ [] };
  message_sender = fresh;
  handle = false;
}

abbrev pub manager : SipManager runtime calls incoming tasks
manager = record {
  context = record { config = config; next_udp_port = 20480 };
  incoming_call_receiver = some [];
  incoming_call_sender = record { open_end = true; items = [] };
  inner = some connected;
}

abbrev pub both : Features
both = record { opus = true; pcmu = true; pcma = false }

abbrev pub ids : Ids
ids = record { call_id = codes "b"; tag_id = codes "t"; branch_id = codes "z" }

call_placed_example :
    let (m', o) =
      call simple_rsip runtime simple_sdp both tasks calls incoming ids
        (fresh, [])
        manager
        (codes "bob") in
    (m'.context ≡ (get_next_udp_port manager.context).0)
    × ((i' : InnerSipManager runtime tasks) × (m'.inner ≡ some i')
        × (lookup (codes "b") i'.socket_data.call_channels ≡ some fresh)
        × (((c : OutgoingCall runtime) × (o ≡ ok c)
              × (c.call_id ≡ codes "b")
              × (c.local_call_session_params.port ≡ 20480)
              × (i'.message_sender.items
                  ≡ []
                    ++ request (
                        generate_invite simple_rsip runtime simple_sdp (
                          prepared simple_rsip runtime simple_sdp both tasks ids [] manager.context
                            connected
                            (codes "bob")))
                      ∷ []))
            ⊎ ((o ≡ err send_failed) × (i'.message_sender ≡ fresh))))
unfolding lookup text_eq
call_placed_example =
    call_placed simple_rsip runtime simple_sdp both tasks calls incoming ids (fresh, []) manager
      connected (codes "bob") simple_sdp-IsWebrtcSdp runtime-IsSender refl refl

abbrev to_bob : Text → Placement simple_rsip runtime simple_sdp both tasks calls incoming
to_bob id = record {
  ids = record { call_id = id; tag_id = codes "t"; branch_id = codes "z" };
  ends = (fresh, []);
  to = codes "bob";
}

abbrev placed : List (Placement simple_rsip runtime simple_sdp both tasks calls incoming)
placed = to_bob (codes "b") ∷ to_bob (codes "c") ∷ []

-- The manager after both calls, and the call after them.
abbrev then_manager : SipManager runtime calls incoming tasks
then_manager = place_all simple_rsip runtime simple_sdp both tasks calls incoming placed manager

abbrev third : SipManager runtime calls incoming tasks × Outcome (OutgoingCall runtime)
third =
    place simple_rsip runtime simple_sdp both tasks calls incoming (to_bob (codes "d")) then_manager

-- What stands under `some` and `ok` there.
abbrev inner_of : Option (InnerSipManager runtime tasks) → InnerSipManager runtime tasks
inner_of (some i) = i
inner_of none = connected

abbrev call_of : Outcome (OutgoingCall runtime) → OutgoingCall runtime
call_of (ok c) = c
call_of _ = invited []

nth_call_port_example :
    (call_of third.1).local_call_session_params.port ≡ 20480 + 2 * (2 % port_count config)
unfolding lookup text_eq place_all call from_config inner_call create_call_channel try_from
    generate_sdp_new populate_sdp_media_from_codecs send_invite send_message
nth_call_port_example =
    nth_call_port simple_rsip runtime simple_sdp both tasks calls incoming config manager placed
      (to_bob (codes "d")) (call_of third.1) simple_sdp-IsWebrtcSdp runtime-IsSender refl
      (omega arith)
      (
        (connected, refl, refl),
        (
          (
            inner_of
                (place simple_rsip runtime simple_sdp both tasks calls incoming (to_bob (codes "b"))
                  manager).0.inner,
            refl,
            refl,
          ),
          tt,
        ),
      )
      (inner_of then_manager.inner, refl, refl) refl
