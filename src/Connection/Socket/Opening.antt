-- ===== src/Connection/Socket/Opening.antt =====
-- src/connection/sip_socket.rs: `connect` opens the stream and registers; the two getters clone
-- handles of what the socket shares.
use simple_sip_rs.Prelude.{ℕ, [], Option, none, some, Text, Outcome, ok, err, panic, not_connected}
use simple_sip_rs.Config.{SocketAddr}
use simple_sip_rs.Context.{SipContext}
use simple_sip_rs.Channels.{Sender}
use simple_sip_rs.Sip.{Rsip}
use simple_sip_rs.SipProto.Register.{Digest}
use simple_sip_rs.Call.Runtime.{Runtime}
use simple_sip_rs.Call.Incoming.{IncomingCall}
use simple_sip_rs.Connection.SocketData.{SocketData}
use simple_sip_rs.Connection.Socket.{Network, Socket, Registered, register}

module _ (r : Rsip) (n : Network) (t : Runtime) (calls : Sender (IncomingCall t)) (d : Digest) where
  abbrev registered : Registered r n t calls d → Option (Outcome (Socket r n t calls))
  registered (s, none) = none
  registered (s, some (ok _)) = some (ok s)
  registered (s, some (err e)) = some (err e)
  registered (s, some panic) = some panic

  abbrev opened :
      ℕ
      → Text × Text
      → t.message_tx.State × t.message_rx.State
      → SipContext
      → calls.State
      → Option (n.Reader × n.Writer)
      → Option (Outcome (Socket r n t calls))
  opened fuel (branch_id, id) (tx, rx) context incoming none = some (err not_connected)
  opened fuel (branch_id, id) (tx, rx) context incoming (some (reader, writer)) = registered (
      register r n t calls d fuel branch_id id (record {
        sip_message_reader = reader;
        stream_write = writer;
        message_receiver = rx;
        message_sender = tx;
        incoming_call_sender = incoming;
        sip_context = context;
        socket_data = record { call_channels = [] };
      }))

  -- The identifiers of the registration and the ends of the fresh channel are arguments; `none` means
  -- that the fuel of the registration ran out.
  unfoldable pub connect :
      ℕ
      → Text × Text
      → t.message_tx.State × t.message_rx.State
      → SocketAddr
      → SipContext
      → calls.State
      → Option (Outcome (Socket r n t calls))
  connect fuel ids ends addr context incoming =
      opened fuel ids ends context incoming (n.connect addr)

  unfoldable pub get_socket_data : Socket r n t calls → SocketData t.message_tx.State
  get_socket_data s = s.socket_data

  unfoldable pub get_message_sender : Socket r n t calls → t.message_tx.State
  get_message_sender s = s.message_sender
