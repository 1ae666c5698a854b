-- ===== src/Call/Runtime.antt =====
-- The channels that the tasks of a call use, and src/connection/call_connection.rs: the connection
-- of a call to the socket.
use simple_sip_rs.Prelude.{
  Option, none, some, Outcome, ok, err, send_failed, channel_closed, if◌then◌else◌,
}
use simple_sip_rs.Channels.{Sender, Receiver, TryRecv, received, empty, disconnected}
use simple_sip_rs.Sip.{SipMessage}

-- `CallControl` of src/call/mod.rs.
pub data CallControl : Type 0 where
  hangup audio_out_empty finished : CallControl

pub record Runtime : Type 1 where
  pub message_tx : Sender SipMessage
  pub message_rx : Receiver SipMessage
  pub control_tx : Sender CallControl
  pub control_rx : Receiver CallControl

module _ (t : Runtime) where
  pub record CallConnection : Type 0 where
    pub sender : t.message_tx.State
    pub receiver : t.message_rx.State

  unfoldable pub send_message : CallConnection → SipMessage → CallConnection × Outcome (Unit {0})
  send_message c message =
      let (sender', done) = t.message_tx.send c.sender message in
      (record c { sender = sender' }, if done then ok tt else err send_failed)

  unfoldable pub recv : CallConnection → CallConnection × Option SipMessage
  recv c =
      let (receiver', m) = t.message_rx.recv c.receiver in (record c { receiver = receiver' }, m)

  abbrev tried : TryRecv SipMessage → Outcome (Option SipMessage)
  tried (received message) = ok (some message)
  tried empty = ok none
  tried disconnected = err channel_closed

  unfoldable pub try_recv : CallConnection → CallConnection × Outcome (Option SipMessage)
  try_recv c =
      let (receiver', answer) = t.message_rx.try_recv c.receiver in
      (record c { receiver = receiver' }, tried answer)
