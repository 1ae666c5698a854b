-- ===== src/Connection/Socket/Messages.antt =====
-- src/connection/sip_socket.rs: what the socket does with the messages that arrive, and its loop.
-- What a round may need from outside is an argument: a random identifier and the two ends of a fresh
-- channel.
use simple_sip_rs.Prelude.{
  Bool, true, false, List, [], ◌∷◌, Option, none, some, Text, Outcome, ok, err, panic, send_failed,
  if◌then◌else◌,
}
use simple_sip_rs.Context.{SipContext}
use simple_sip_rs.Channels.{Sender}
use simple_sip_rs.Sip
use simple_sip_rs.Sip.{
  Rsip, Method, options, invite, Request, SipMessage, request, response, message_headers,
}
use simple_sip_rs.Sdp.{WebrtcSdp}
use simple_sip_rs.Media.Features.{Features}
use simple_sip_rs.SipProto.Options.{generate_options_response}
use simple_sip_rs.Call.Session.{header_of}
use simple_sip_rs.Call.Runtime.{Runtime, CallConnection}
use simple_sip_rs.Call.Incoming.{IncomingCall, try_from_request}
use simple_sip_rs.Connection.SocketData.{SocketData, lookup, update, remove, create_call_channel}
use simple_sip_rs.Connection.Socket.{Network, Socket, send_message}

pub data Ready : Type 0 where
  read_ready outbox_ready : Ready

pub record Fresh (t : Runtime) : Type 0 where
  pub uuid : Text
  pub channel : t.message_tx.State × t.message_rx.State

module _ (r : Rsip) (n : Network) (t : Runtime) (calls : Sender (IncomingCall t)) where
  abbrev pub Sock : Type 0
  Sock = Socket r n t calls

  abbrev pub Step : Type 0
  Step = Sock × Outcome (Unit {0})

  abbrev pub with_channels : Sock → List (Text × t.message_tx.State) → Sock
  with_channels s l = record s { socket_data = record { call_channels = l } }

  -- A channel that has closed is dropped from the map, and the message with it.
  abbrev pub deliver : Sock → Text → t.message_tx.State × Bool → Sock
  deliver s id (tx, true) = with_channels s (update id tx s.socket_data.call_channels)
  deliver s id (tx, false) = with_channels s (remove id s.socket_data.call_channels)

  abbrev pub to_call : Sock → SipMessage → Text → Option t.message_tx.State → Sock × Bool
  to_call s m id none = (s, false)
  to_call s m id (some tx) = (deliver s id (t.message_tx.send tx m), true)

  abbrev pub by_call_id : Sock → SipMessage → Option Text → Sock × Bool
  by_call_id s m none = (s, false)
  by_call_id s m (some id) = to_call s m id (lookup id s.socket_data.call_channels)

  -- Was the message for a call?
  unfoldable pub handle_call_message : Sock → SipMessage → Sock × Bool
  handle_call_message s m = by_call_id s m (r.find_header Sip.call_id (message_headers m))

module _ (r : Rsip) (n : Network) (t : Runtime) (calls : Sender (IncomingCall t)) (w : WebrtcSdp)
    (features : Features) where
  abbrev pub answer : Sock r n t calls → Outcome SipMessage → Step r n t calls
  answer s (ok m) = send_message r n t calls s m
  answer s (err e) = (s, err e)
  answer s panic = (s, panic)

  abbrev pub hand_over :
      Sock r n t calls → SipContext × CallConnection t × Outcome (IncomingCall t) → Step r n t calls
  hand_over s (context, connection, ok call) =
      let (sender, done) = calls.send s.incoming_call_sender call in
      (
        record s {
          sip_context = context;
          message_sender = connection.sender;
          incoming_call_sender = sender;
        },
        if done then ok tt else err send_failed,
      )
  hand_over s (context, connection, err e) =
      (record s { sip_context = context; message_sender = connection.sender }, err e)
  hand_over s (context, connection, panic) =
      (record s { sip_context = context; message_sender = connection.sender }, panic)

  abbrev pub offer :
      Sock r n t calls
      → Request
      → Text
      → SocketData t.message_tx.State × Outcome t.message_rx.State
      → Step r n t calls
  offer s q uuid (data', ok rx) =
      hand_over (record s { socket_data = data' })
        (try_from_request r t w features s.sip_context q
          (record { sender = s.message_sender; receiver = rx }) uuid)
  offer s q uuid (data', err e) = (record s { socket_data = data' }, err e)
  offer s q uuid (data', panic) = (record s { socket_data = data' }, panic)

  abbrev pub invited : Sock r n t calls → Request → Fresh t → Outcome Text → Step r n t calls
  invited s q fresh (ok id) =
      offer s q fresh.uuid (create_call_channel s.socket_data id fresh.channel)
  invited s q fresh (err e) = (s, err e)
  invited s q fresh panic = (s, panic)

  abbrev pub by_method : Method → Sock r n t calls → Request → Fresh t → Step r n t calls
  by_method options s q fresh = answer s (generate_options_response r q s.sip_context.config)
  by_method invite s q fresh = invited s q fresh (header_of r Sip.call_id q.headers)
  by_method _ s q fresh = (s, ok tt)

  unfoldable pub handle_sip_request : Sock r n t calls → Request → Fresh t → Step r n t calls
  handle_sip_request s q fresh = by_method q.method s q fresh

  unfoldable pub handle_message : Sock r n t calls → SipMessage → Fresh t → Step r n t calls
  handle_message s (request q) fresh = handle_sip_request s q fresh
  handle_message s (response res) fresh = (s, ok tt)

  -- A round of the loop: `none` goes on.
  abbrev Round : Type 0
  Round = Sock r n t calls × Option (Outcome (Unit {0}))

  abbrev pub passing : Step r n t calls → Round
  passing (s, ok _) = (s, none)
  passing (s, err e) = (s, some (err e))
  passing (s, panic) = (s, some panic)

  abbrev pub unless_taken : Sock r n t calls × Bool → SipMessage → Fresh t → Round
  unless_taken (s, true) m fresh = (s, none)
  unless_taken (s, false) m fresh = passing (handle_message s m fresh)

  abbrev pub on_read : Sock r n t calls → Option (Outcome SipMessage) → Fresh t → Round
  on_read s none fresh = (s, none)
  on_read s (some (ok m)) fresh = unless_taken (handle_call_message r n t calls s m) m fresh
  on_read s (some (err e)) fresh = (s, none)
  on_read s (some panic) fresh = (s, some panic)

  abbrev pub on_outbox : Sock r n t calls → Option SipMessage → Round
  on_outbox s none = (s, some (ok tt))
  on_outbox s (some m) = passing (send_message r n t calls s m)

  unfoldable pub round : Sock r n t calls → Ready → Fresh t → Round
  round s read_ready fresh =
      let (reader, x) = n.next s.sip_message_reader in
      on_read (record s { sip_message_reader = reader }) x fresh
  round s outbox_ready fresh =
      let (receiver, m) = t.message_rx.recv s.message_receiver in
      on_outbox (record s { message_receiver = receiver }) m

  abbrev pub go_on : Round → (Sock r n t calls → Round) → Round
  go_on (s, none) later = later s
  go_on (s, some o) later = (s, some o)

  -- The loop over a schedule of ready branches; `none` means that it still runs at the end.
  unfoldable pub run : Sock r n t calls → List (Ready × Fresh t) → Round
  run s [] = (s, none)
  run s ((ready, fresh) ∷ later) = go_on (round s ready fresh) (λ s'. run s' later)
