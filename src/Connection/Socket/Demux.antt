-- ===== src/Connection/Socket/Demux.antt =====
-- The stream of messages that src/connection/sip_socket.rs reads, as each of its calls gets it.
use simple_sip_rs.Prelude.{
  ◌≡◌, refl, sym, ap, ◌∙◌, List, [], ◌∷◌, ◌++◌, Option, none, some, Text, Outcome,
}
use mathlib.Core.List.{append_assoc}
use simple_sip_rs.Channels.{Sender, IsSender}
use simple_sip_rs.Sip.{Rsip, SipMessage}
use simple_sip_rs.Sdp.{WebrtcSdp}
use simple_sip_rs.Media.Features.{Features}
use simple_sip_rs.Call.Runtime.{Runtime}
use simple_sip_rs.Call.Incoming.{IncomingCall}
use simple_sip_rs.Connection.Socket.{Network}
use simple_sip_rs.Connection.Socket.Messages.{
  Sock, Ready, read_ready, outbox_ready, Fresh, round, go_on, run,
}
use simple_sip_rs.Connection.Socket.Routing.{channel_of}
use simple_sip_rs.Connection.Socket.Delivered.{
  of_call, of_call-append, IsOpen, Gets, message_of, kept-Gets, on_read-Gets, on_outbox-Gets,
}

module _ (r : Rsip) (n : Network) (t : Runtime) (calls : Sender (IncomingCall t)) (w : WebrtcSdp)
    (features : Features) where
  abbrev read_by : Sock r n t calls → Ready → List SipMessage
  read_by s read_ready = message_of r n t calls w features (n.next s.sip_message_reader).1
  read_by s outbox_ready = []

  -- The messages that are read while the loop runs.
  abbrev while_running :
      Sock r n t calls × Option (Outcome (Unit {0}))
      → (Sock r n t calls → List SipMessage)
      → List SipMessage
  while_running (s, none) later = later s
  while_running (s, some o) later = []

  unfoldable pub reads : Sock r n t calls → List (Ready × Fresh t) → List SipMessage
  reads s [] = []
  reads s ((ready, fresh) ∷ later) =
      read_by s ready
      ++ while_running (round r n t calls w features s ready fresh) (λ s'. reads s' later)

  module _ {P : t.message_tx.State → Type 0} (is_open : IsOpen r n t calls w features P)
      (law : IsSender t.message_tx) (id : Text) where
    round-Gets :
        (s : Sock r n t calls) (tx : t.message_tx.State) (ready : Ready) (fresh : Fresh t)
        → channel_of r n t calls s id ≡ some tx
        → P tx
        → Gets r n t calls w features is_open law id tx
            (read_by s ready)
            (round r n t calls w features s ready fresh).0
    unfolding round
    round-Gets s tx read_ready fresh e p =
        let (reader, x) = n.next s.sip_message_reader in
        on_read-Gets r n t calls w features is_open law id
          (record s { sip_message_reader = reader }) tx x fresh e p
    round-Gets s tx outbox_ready fresh e p =
        let (receiver, m) = t.message_rx.recv s.message_receiver in
        on_outbox-Gets r n t calls w features is_open law id
          (record s { message_receiver = receiver }) tx m e p

    Gets-append :
        (tx tx' : t.message_tx.State) (ms ms' : List SipMessage) (s : Sock r n t calls)
        → t.message_tx.sent tx' ≡ t.message_tx.sent tx ++ of_call r id ms
        → Gets r n t calls w features is_open law id tx' ms' s
        → Gets r n t calls w features is_open law id tx (ms ++ ms') s
    Gets-append tx tx' ms ms' s first (tx'', e, p, second) = (
      tx'',
      e,
      p,
      second
          ∙ ap (λ (l : List SipMessage). l ++ of_call r id ms') first
          ∙ append_assoc (t.message_tx.sent tx) (of_call r id ms) (of_call r id ms')
          ∙ ap (λ (l : List SipMessage). t.message_tx.sent tx ++ l)
              (sym (of_call-append r id ms ms')),
    )

    go_on-Gets :
        (s : Sock r n t calls) (tx : t.message_tx.State) (o : Option (Outcome (Unit {0})))
        (later : Sock r n t calls → Sock r n t calls × Option (Outcome (Unit {0})))
        (rest : Sock r n t calls → List SipMessage)
        → channel_of r n t calls s id ≡ some tx
        → P tx
        → Gets r n t calls w features is_open law id tx (rest s) (later s).0
        → Gets r n t calls w features is_open law id tx
            (while_running (s, o) rest)
            (go_on r n t calls w features (s, o) later).0
    go_on-Gets s tx none later rest e p g = g
    go_on-Gets s tx (some o) later rest e p g =
        kept-Gets r n t calls w features is_open law id s s tx e p refl

    -- Over any schedule of the socket's loop, the channel of a known call stays in the map and is
    -- sent exactly those of the messages that the loop reads that carry its call id, in their
    -- order, behind what it was sent before. It assumes that the channel takes what it is sent,
    -- and the law of the sending half.
    pub demultiplexed :
        (s : Sock r n t calls) (schedule : List (Ready × Fresh t)) (tx : t.message_tx.State)
        → channel_of r n t calls s id ≡ some tx
        → P tx
        → (tx' : t.message_tx.State) × (channel_of r n t calls
              (run r n t calls w features s schedule).0
              id
            ≡ some tx')
          × P tx'
          × (t.message_tx.sent tx' ≡ t.message_tx.sent tx ++ of_call r id (reads s schedule))
    unfolding run reads
    demultiplexed s [] tx e p = kept-Gets r n t calls w features is_open law id s s tx e p refl
    demultiplexed s ((ready, fresh) ∷ later) tx e p =
        let (s', o) = round r n t calls w features s ready fresh in
        let (tx1, e1, p1, first) = round-Gets s tx ready fresh e p in
        Gets-append tx tx1 (read_by s ready) (while_running (s', o) (λ x. reads x later))
          (run r n t calls w features s ((ready, fresh) ∷ later)).0 first
          (go_on-Gets s' tx1 o (λ x. run r n t calls w features x later) (λ x. reads x later) e1 p1
            (demultiplexed s' later tx1 e1 p1))
