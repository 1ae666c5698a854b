-- ===== src/Connection/Socket/Farewell.antt =====
-- A `BYE` on its way from the server to the user: src/connection/sip_socket.rs reads it,
-- src/call/call_handler.rs ends the call, and src/call/mod.rs lets the user go on.
use simple_sip_rs.Prelude.{
  ℕ, ◌<◌, ◌≡◌, sym, ap, ◌∙◌, true, false, List, ◌∷◌, ◌++◌, some, Text, length, Each, append-cancel,
}
use mathlib.Core.List.{append_assoc}
use simple_sip_rs.Channels.{Sender, IsSender, Receiver, IsReceiver}
use simple_sip_rs.Sip.{Rsip, IsRsip, Method, bye, via, cseq, Request, SipMessage, request}
use simple_sip_rs.Sdp.{WebrtcSdp}
use simple_sip_rs.Media.Features.{Features}
use simple_sip_rs.Media.TelephoneEvents.{Media}
use simple_sip_rs.Call.Runtime.{Runtime, CallControl, finished}
use simple_sip_rs.Call.Handler as Handler
use simple_sip_rs.Call.Handler.{CallHandler, is_running, call_task}
use simple_sip_rs.Call.Handler.Rounds.{IsPassed, inbox}
use simple_sip_rs.Call.Handler.Farewell.{messages_taken, bye_stops}
use simple_sip_rs.Call.Incoming.{IncomingCall}
use simple_sip_rs.Call.Ongoing.{Tasks, Call, block_for_finished}
use simple_sip_rs.Call.Ongoing.Waiting.{arrivals, task_end_unblocks}
use simple_sip_rs.Connection.Socket.{Network}
use simple_sip_rs.Connection.Socket.Messages as Messages
use simple_sip_rs.Connection.Socket.Messages.{Sock, Fresh}
use simple_sip_rs.Connection.Socket.Routing.{channel_of}
use simple_sip_rs.Connection.Socket.Delivered.{of_call, IsOpen}
use simple_sip_rs.Connection.Socket.Demux.{reads, demultiplexed}

module _ (r : Rsip) (n : Network) (t : Runtime) (calls : Sender (IncomingCall t)) (w : WebrtcSdp)
    (features : Features) (media_tx : Sender Media) (media_rx : Receiver Media) (k : Tasks) where
  some-injective : {A : Type 0} {a b : A} → some a ≡ some b → a ≡ b
  some-injective p = cc

  -- What waits for a handler, given what its channel has been sent and what it has taken.
  inbox_from :
      (h : CallHandler t) (got waiting before rest sent' : List SipMessage) (m : SipMessage)
      → sent' ≡ (got ++ waiting) ++ (before ++ m ∷ rest)
      → got ++ inbox r t h ≡ sent'
      → inbox r t h ≡ (waiting ++ before) ++ m ∷ rest
  inbox_from h got waiting before rest sent' m all delivered =
      append-cancel got (delivered ∙ all ∙ append_assoc got waiting (before ++ m ∷ rest))
      ∙ sym (append_assoc waiting before (m ∷ rest))

  -- A BYE with a Via and a well-formed CSeq that the socket reads from the server under the call
  -- id of a known call ends that call: where the call's channel takes what it is sent, its
  -- handler gets what was sent to it, none of the call's messages before the BYE ends the call,
  -- and the handler's schedule takes more messages than there are before it, the handler no
  -- longer runs; and where the task's last message is accepted and the user gets what the task
  -- has sent, block_for_finished returns. It assumes the laws of the channels and of the message
  -- types.
  pub bye_ends_call :
      {P : t.message_tx.State → Type 0} (s : Sock r n t calls)
      (schedule : List (Messages.Ready × Fresh t)) (id : Text) (tx tx' : t.message_tx.State)
      (h : CallHandler t) (rounds : List (Handler.Ready × Text)) (c : Call t media_tx media_rx k)
      (got waiting before rest : List SipMessage) (heard unheard : List CallControl) (q : Request)
      (v : Text) (n' : ℕ) (m : Method)
      → IsOpen r n t calls w features P
      → IsRsip r
      → IsSender t.message_tx
      → IsReceiver t.message_rx
      → channel_of r n t calls s id ≡ some tx
      → P tx
      → t.message_tx.sent tx ≡ got ++ waiting
      → of_call r id (reads r n t calls w features s schedule) ≡ before ++ request q ∷ rest
      → channel_of r n t calls (Messages.run r n t calls w features s schedule).0 id ≡ some tx'
      → got ++ inbox r t h ≡ t.message_tx.sent tx'
      → Each IsPassed (waiting ++ before)
      → length (waiting ++ before) < messages_taken rounds
      → q.method ≡ bye
      → r.find_header via q.headers ≡ some v
      → r.find_header cseq q.headers ≡ some (r.cseq_text n' m)
      → IsSender t.control_tx
      → IsReceiver t.control_rx
      → (t.control_tx.send (Handler.run r t h rounds).call_channel.sender finished).1 ≡ true
      → t.control_tx.sent (Handler.run r t h rounds).call_channel.sender ≡ heard ++ unheard
      → heard ++ arrivals t media_tx media_rx k c
        ≡ t.control_tx.sent (call_task r t h rounds).call_channel.sender
      → (is_running r t (Handler.run r t h rounds) ≡ false)
        × ((fuel : ℕ) × ((block_for_finished t media_tx media_rx k fuel c).1 ≡ true))
  bye_ends_call s schedule id tx tx' h rounds c got waiting before rest heard unheard q v n' m
        is_open laws sender receiver known p until_now read known' delivered passed enough is_bye hv
        hc teller hearer open_end told heard_all =
      let (tx1, e1, p1, all) =
        demultiplexed r n t calls w features is_open sender id s schedule tx known p in
      let sent : t.message_tx.sent tx' ≡ (got ++ waiting) ++ (before ++ request q ∷ rest) =
        ap t.message_tx.sent (some-injective (sym known' ∙ e1))
        ∙ all
        ∙ ap (λ (l : List SipMessage). l ++ of_call r id (reads r n t calls w features s schedule))
            until_now
        ∙ ap (λ (l : List SipMessage). (got ++ waiting) ++ l) read in
      (
        bye_stops laws sender receiver q v n' m is_bye hv hc h rounds (waiting ++ before) rest
            (inbox_from h got waiting before rest (t.message_tx.sent tx') (request q) sent
              delivered)
            passed enough,
        task_end_unblocks t media_tx media_rx k r h rounds c heard unheard teller hearer open_end
            told heard_all,
      )
