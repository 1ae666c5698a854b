-- ===== src/Utils.antt =====
-- src/utils.rs: a pair of channels that two parties use in opposite directions.
use simple_sip_rs.Prelude.{Bool, ◌||◌, Option, Outcome, ok, err, send_failed, if◌then◌else◌}
use simple_sip_rs.Channels.{Sender, Receiver}

pub record BidirectionalChannel (S R : Type 0) : Type 0 where
  pub sender : S
  pub receiver : R

module _ {A : Type 0} (tx : Sender A) (rx : Receiver A) where
  abbrev pub Channel : Type 0
  Channel = BidirectionalChannel tx.State rx.State

  unfoldable pub recv : Channel → Channel × Option A
  recv c = let (receiver', a) = rx.recv c.receiver in (record c { receiver = receiver' }, a)

  unfoldable pub send : Channel → A → Channel × Outcome (Unit {0})
  send c value =
      let (sender', done) = tx.send c.sender value in
      (record c { sender = sender' }, if done then ok tt else err send_failed)

  unfoldable pub one_sided : Channel → Bool
  one_sided c = rx.is_closed c.receiver || tx.is_closed c.sender

  -- Of two fresh channels each party gets the sending half of one and the receiving half of the
  -- other.
  unfoldable pub create_mpsc_bidirectional_unbounded :
      tx.State × rx.State → tx.State × rx.State → Channel × Channel
  create_mpsc_bidirectional_unbounded (tx0, rx0) (tx1, rx1) =
      (record { sender = tx0; receiver = rx1 }, record { sender = tx1; receiver = rx0 })
