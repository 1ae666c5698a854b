-- ===== src/Manager/Placing.antt =====
-- src/manager.rs: how a call is placed through the connected session.
use simple_sip_rs.Prelude.{Option, none, some, Text, Outcome, ok, err, panic, not_connected}
use simple_sip_rs.Config.{Config}
use simple_sip_rs.Context.{SipContext}
use simple_sip_rs.Channels.{Sender, Receiver}
use simple_sip_rs.Sip.{Rsip, Uri, sip, of_socket_addr}
use simple_sip_rs.Sdp.{WebrtcSdp}
use simple_sip_rs.Media.Features.{Features}
use simple_sip_rs.Call.Runtime.{Runtime}
use simple_sip_rs.Call.Incoming.{IncomingCall}
use simple_sip_rs.Call.Outgoing.{OutgoingCall, try_from}
use simple_sip_rs.Call.Ongoing.{Tasks}
use simple_sip_rs.Connection.SocketData.{SocketData, create_call_channel}
use simple_sip_rs.Manager.{InnerSipManager, SipManager}

-- The identifiers of a call: its call id, its tag and its branch.
pub record Ids : Type 0 where
  pub call_id : Text
  pub tag_id : Text
  pub branch_id : Text

module _ (r : Rsip) (t : Runtime) (w : WebrtcSdp) (features : Features) (k : Tasks) where
  abbrev pub destination : Config → Text → Uri
  destination config to = record r.uri_default {
    scheme = some sip;
    auth = some (record { user = to; password = none });
    host_with_port = of_socket_addr config.server_addr;
  }

  abbrev pub Placed : Type 0
  Placed = SipContext × InnerSipManager t k × Outcome (OutgoingCall t)

  -- A sent message is in the channel that all handles of the sender share.
  abbrev pub invited : InnerSipManager t k → SipContext × Outcome (OutgoingCall t) → Placed
  invited i (context, ok c) =
      (context, record i { message_sender = c.call_connection.sender }, ok c)
  invited i (context, err e) = (context, i, err e)
  invited i (context, panic) = (context, i, panic)

  abbrev pub with_channel :
      Ids
      → SipContext
      → InnerSipManager t k
      → Text
      → SocketData t.message_tx.State × Outcome t.message_rx.State
      → Placed
  with_channel ids context i to (data', ok rx) =
      invited (record i { socket_data = data' })
        (try_from r t w features context (record { sender = i.message_sender; receiver = rx })
          ids.call_id (destination context.config to) ids.tag_id ids.branch_id)
  with_channel ids context i to (data', err e) = (context, record i { socket_data = data' }, err e)
  with_channel ids context i to (data', panic) = (context, record i { socket_data = data' }, panic)

  unfoldable pub inner_call :
      Ids
      → t.message_tx.State × t.message_rx.State
      → SipContext
      → InnerSipManager t k
      → Text
      → Placed
  inner_call ids ends context i to =
      with_channel ids context i to (create_call_channel i.socket_data ids.call_id ends)

  module _ (calls : Sender (IncomingCall t)) (rx : Receiver (IncomingCall t)) where
    abbrev pub placed :
        SipManager t calls rx k → Placed → SipManager t calls rx k × Outcome (OutgoingCall t)
    placed m (context, i, o) = (record m { context = context; inner = some i }, o)

    abbrev pub through :
        Ids
        → t.message_tx.State × t.message_rx.State
        → SipManager t calls rx k
        → Text
        → Option (InnerSipManager t k)
        → SipManager t calls rx k × Outcome (OutgoingCall t)
    through ids ends m to none = (m, err not_connected)
    through ids ends m to (some i) = placed m (inner_call ids ends m.context i to)

    unfoldable pub call :
        Ids
        → t.message_tx.State × t.message_rx.State
        → SipManager t calls rx k
        → Text
        → SipManager t calls rx k × Outcome (OutgoingCall t)
    call ids ends m to = through ids ends m to m.inner
