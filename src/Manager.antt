-- ===== src/Manager.antt =====
-- src/manager.rs: the session of a user with the server. The context is one object that the manager,
-- its socket and its calls share; the manager's record holds it as it is when a method starts. A
-- random identifier, the ends of a fresh channel and the handle of a spawned task are arguments.
pub mod Stopping
pub mod Placing
pub mod Invited
pub mod Ports
use simple_sip_rs.Prelude.{
  ℕ, Bool, true, false, not, List, [], ◌∷◌, Option, none, some, Text, Outcome, ok, err, panic,
  ◌>>=◌, not_connected, receiver_taken, if◌then◌else◌,
}
use simple_sip_rs.Config.{Config}
use simple_sip_rs.Context.{SipContext}
use simple_sip_rs.Context
use simple_sip_rs.Channels.{Sender, Receiver}
use simple_sip_rs.Sip.{Rsip, Uri, sip, of_socket_addr}
use simple_sip_rs.Sdp.{WebrtcSdp}
use simple_sip_rs.Media.Features.{Features}
use simple_sip_rs.SipProto.Register.{Digest}
use simple_sip_rs.Call.Runtime.{Runtime}
use simple_sip_rs.Call.Incoming.{IncomingCall}
use simple_sip_rs.Call.Outgoing.{OutgoingCall, try_from}
use simple_sip_rs.Call.Ongoing.{Tasks}
use simple_sip_rs.Connection.SocketData.{SocketData, create_call_channel}
use simple_sip_rs.Connection.Socket.{Network, SipSocket, Socket}
use simple_sip_rs.Connection.Socket.Opening.{connect, get_socket_data, get_message_sender}

pub record IncomingCallReceiver {t : Runtime} (rx : Receiver (IncomingCall t)) : Type 0 where
  pub receiver : rx.State

module _ {t : Runtime} (rx : Receiver (IncomingCall t)) where
  abbrev pub new : rx.State → IncomingCallReceiver rx
  new receiver = record { receiver = receiver }

  unfoldable pub recv : IncomingCallReceiver rx → IncomingCallReceiver rx × Option (IncomingCall t)
  recv c = let (receiver', call) = rx.recv c.receiver in (record { receiver = receiver' }, call)

  abbrev pub take : IncomingCallReceiver rx → rx.State
  take c = c.receiver

module _ (t : Runtime) (k : Tasks) where
  pub record InnerSipManager : Type 0 where
    pub socket_data : SocketData t.message_tx.State
    pub message_sender : t.message_tx.State
    pub handle : k.Handle

  unfoldable pub inner_is_running : InnerSipManager → Bool
  inner_is_running i = not (k.is_finished i.handle)

  unfoldable pub inner_stop : InnerSipManager → InnerSipManager
  unfolding inner_is_running
  inner_stop i = if not (inner_is_running i) then record i { handle = k.abort i.handle } else i

  -- `drop`
  unfoldable pub inner_drop : InnerSipManager → InnerSipManager
  unfolding inner_stop
  inner_drop i = inner_stop i

module _ (t : Runtime) (calls : Sender (IncomingCall t)) (rx : Receiver (IncomingCall t))
    (k : Tasks) where
  pub record SipManager : Type 0 where
    pub context : SipContext
    pub incoming_call_receiver : Option rx.State
    pub incoming_call_sender : calls.State
    pub inner : Option (InnerSipManager t k)

  unfoldable pub from_config : Config → calls.State × rx.State → Outcome SipManager
  from_config config (sender, receiver) = do
    context ← Context.from_config config
    ok (record {
      context = context;
      incoming_call_receiver = some receiver;
      incoming_call_sender = sender;
      inner = none;
    })

  abbrev dropped : Option (InnerSipManager t k) → Option (InnerSipManager t k)
  dropped none = none
  dropped (some i) = some (inner_drop t k i)

  -- The manager, and what was dropped: its task is not the manager's any more.
  unfoldable pub stop : SipManager → SipManager × Option (InnerSipManager t k)
  stop m = (record m { inner = none }, dropped m.inner)

  abbrev running : Option (InnerSipManager t k) → Bool
  running none = false
  running (some i) = inner_is_running t k i

  unfoldable pub is_running : SipManager → Bool
  is_running m = running m.inner

  abbrev taken : Option rx.State → Option (IncomingCallReceiver rx)
  taken none = none
  taken (some receiver) = some (new rx receiver)

  unfoldable pub take_incoming_call_receiver :
      SipManager → SipManager × Option (IncomingCallReceiver rx)
  take_incoming_call_receiver m =
      (record m { incoming_call_receiver = none }, taken m.incoming_call_receiver)

  unfoldable pub give_incoming_call_receiver : SipManager → IncomingCallReceiver rx → SipManager
  give_incoming_call_receiver m c = record m { incoming_call_receiver = some (take rx c) }

  abbrev received : SipManager → Option rx.State → SipManager × Outcome (Option (IncomingCall t))
  received m none = (m, err receiver_taken)
  received m (some receiver) =
      let (receiver', call) = rx.recv receiver in
      (record m { incoming_call_receiver = some receiver' }, ok call)

  unfoldable pub recv_incoming_call : SipManager → SipManager × Outcome (Option (IncomingCall t))
  recv_incoming_call m = received m m.incoming_call_receiver

module _ (r : Rsip) (n : Network) (t : Runtime) (calls : Sender (IncomingCall t))
    (rx : Receiver (IncomingCall t)) (k : Tasks) (d : Digest) where
  abbrev inner_of :
      k.Handle → Option (Outcome (Socket r n t calls)) → Option (Outcome (InnerSipManager t k))
  inner_of handle none = none
  inner_of handle (some (ok s)) = some (
      ok (record {
        socket_data = get_socket_data r n t calls d s;
        message_sender = get_message_sender r n t calls d s;
        handle = handle;
      }))
  inner_of handle (some (err e)) = some (err e)
  inner_of handle (some panic) = some panic

  -- `InnerSipManager::connect`: the task that is spawned runs the loop of the socket.
  unfoldable pub inner_connect :
      ℕ
      → Text × Text
      → t.message_tx.State × t.message_rx.State
      → k.Handle
      → SipContext
      → calls.State
      → Option (Outcome (InnerSipManager t k))
  inner_connect fuel ids ends handle context incoming =
      inner_of handle
        (connect r n t calls d fuel ids ends context.config.server_addr context incoming)

  abbrev Launched : Type 0
  Launched = SipManager t calls rx k × Option (Outcome (Unit {0}))

  abbrev launched : SipManager t calls rx k → Option (Outcome (InnerSipManager t k)) → Launched
  launched m none = (m, none)
  launched m (some (ok i)) = (record m { inner = some i }, some (ok tt))
  launched m (some (err e)) = (m, some (err e))
  launched m (some panic) = (m, some panic)

  unfoldable pub start :
      ℕ
      → Text × Text
      → t.message_tx.State × t.message_rx.State
      → k.Handle
      → SipManager t calls rx k
      → Launched
  start fuel ids ends handle m =
      let m' = (stop t calls rx k m).0 in
      launched m' (inner_connect fuel ids ends handle m'.context m'.incoming_call_sender)
