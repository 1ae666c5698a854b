-- ===== src/Cli/Commands.antt =====
-- examples/cli.rs: the commands. What a command needs from outside is an argument: how many messages
-- arrive before the 20 seconds of a call are over, identifiers, the ends of fresh channels and the
-- handles of spawned tasks.
use simple_sip_rs.Prelude.{
  ℕ, List, [], ◌∷◌, ◌++◌, Option, none, some, Text, text_eq, codes, Outcome, ok, err, panic, ◌==◌,
  if◌then◌else◌,
}
use simple_sip_rs.Channels.{Sender, Receiver}
use simple_sip_rs.Sip.{Rsip}
use simple_sip_rs.Sdp.{WebrtcSdp}
use simple_sip_rs.SipProto.Register.{Digest}
use simple_sip_rs.Media.Features.{Features}
use simple_sip_rs.Media.TelephoneEvents.{Media}
use simple_sip_rs.Call.Session.{SessionParameters}
use simple_sip_rs.Call.Runtime.{Runtime, CallConnection}
use simple_sip_rs.Call.Incoming as Incoming
use simple_sip_rs.Call.Incoming.{IncomingCall, IncomingCallResult}
use simple_sip_rs.Call.Outgoing as Outgoing
use simple_sip_rs.Call.Outgoing.{
  OutgoingCall, OutgoingCallResponse, PeekOutgoingCallResponse, cancel_call,
}
use simple_sip_rs.Call.Outgoing.Answer.{peek_call_response, into_call_response}
use simple_sip_rs.Call.Ongoing as Ongoing
use simple_sip_rs.Call.Ongoing.{Tasks, Call, Spawned, hang_up}
use simple_sip_rs.Manager.{InnerSipManager, SipManager, recv_incoming_call}
use simple_sip_rs.Manager.Placing.{Ids, call}
use simple_sip_rs.Cli.{Recorder}

-- `str::split` at one character: there is a piece more than there are separators.
abbrev in_first : ℕ → List Text → List Text
in_first b [] = (b ∷ []) ∷ []
in_first b (word ∷ words) = (b ∷ word) ∷ words

unfoldable pub split : ℕ → Text → List Text
split separator [] = [] ∷ []
split separator (b ∷ text) =
    let pieces = split separator text in if b == separator then [] ∷ pieces else in_first b pieces

pub data Command : Type 0 where
  accept_command reject_command hangup_command call_command other_command : Command

unfoldable pub command_of : Text → Command
command_of word =
    if text_eq word (codes "accept")
    then accept_command
    else if text_eq word (codes "reject")
    then reject_command
    else if text_eq word (codes "hangup")
    then hangup_command
    else if text_eq word (codes "call")
    then call_command
    else other_command

module _ (t : Runtime) (tx : Sender Media) (rx : Receiver Media) (k : Tasks)
    (calls : Sender (IncomingCall t)) (incoming : Receiver (IncomingCall t)) where
  -- What `main` keeps, the calls that it has dropped, what their tasks were spawned with, and the
  -- samples that the output device was given.
  pub record Program : Type 0 where
    pub sip_manager : SipManager t calls incoming k
    pub current_call : Option (Call t tx rx k)
    pub buffer_play : List ℕ
    pub recorder : Recorder
    pub dropped : List (Call t tx rx k)
    pub spawned : List (Spawned t tx rx k)
    pub played : List ℕ

pub record Supply (t : Runtime) (tx : Sender Media) (rx : Receiver Media) (k : Tasks) : Type 0 where
  pub peek_messages : ℕ
  pub search_fuel : ℕ
  pub uuid : Text
  pub ids : Ids
  pub message_ends : t.message_tx.State × t.message_rx.State
  pub control_ends :
      (t.control_tx.State × t.control_rx.State) × (t.control_tx.State × t.control_rx.State)
  pub media_ends : (tx.State × rx.State) × (tx.State × rx.State)
  pub handles : k.Handle × k.Handle

module _ (r : Rsip) (t : Runtime) (w : WebrtcSdp) (d : Digest) (features : Features)
    (tx : Sender Media) (rx : Receiver Media) (k : Tasks) (calls : Sender (IncomingCall t))
    (incoming : Receiver (IncomingCall t)) where
  abbrev pub Prog : Type 0
  Prog = Program t tx rx k calls incoming

  -- `none` means that the fuel of a search ran out.
  abbrev pub Result : Type 0
  Result = Prog × Option (Outcome (Unit {0}))

  abbrev pub dropped_with : Option (Call t tx rx k) → List (Call t tx rx k)
  dropped_with none = []
  dropped_with (some c) = Ongoing.drop t tx rx k c ∷ []

  -- The call takes the place of the one that there was, which is dropped.
  abbrev pub start_call : Supply t tx rx k → Prog → CallConnection t → SessionParameters → Prog
  start_call a p connection params =
      let (c, s) =
        Ongoing.new t tx rx k r a.control_ends a.media_ends a.handles connection params in
      record p {
        current_call = some c;
        dropped = p.dropped ++ dropped_with p.current_call;
        spawned = p.spawned ++ s ∷ [];
      }

  abbrev pub with_manager : Prog → SipManager t calls incoming k → Prog
  with_manager p m = record p { sip_manager = m }

  abbrev pub accepted :
      Supply t tx rx k → Prog → IncomingCall t × Option (Outcome (IncomingCallResult t)) → Result
  accepted a p (c, none) = (p, none)
  accepted a p (c, some (ok (Incoming.started connection params))) =
      (start_call a p connection params, some (ok tt))
  accepted a p (c, some (ok Incoming.cancelled)) = (p, some (ok tt))
  accepted a p (c, some (err e)) = (p, some (err e))
  accepted a p (c, some panic) = (p, some panic)

  abbrev pub accept_next :
      Supply t tx rx k
      → Prog
      → SipManager t calls incoming k × Outcome (Option (IncomingCall t))
      → Result
  accept_next a p (m, ok (some c)) =
      accepted a (with_manager p m) (Incoming.accept r t w a.search_fuel c)
  accept_next a p (m, ok none) = (with_manager p m, some (ok tt))
  accept_next a p (m, err e) = (with_manager p m, some (ok tt))
  accept_next a p (m, panic) = (with_manager p m, some panic)

  abbrev pub reject_next :
      Supply t tx rx k
      → Prog
      → SipManager t calls incoming k × Outcome (Option (IncomingCall t))
      → Result
  reject_next a p (m, ok (some c)) = (with_manager p m, (Incoming.reject r t w a.search_fuel c).1)
  reject_next a p (m, ok none) = (with_manager p m, some (ok tt))
  reject_next a p (m, err e) = (with_manager p m, some (ok tt))
  reject_next a p (m, panic) = (with_manager p m, some panic)

  abbrev pub hang_up_current : Prog → Option (Call t tx rx k) → Result
  hang_up_current p none = (p, some (ok tt))
  hang_up_current p (some c) =
      let (c', o) = hang_up t tx rx k c in (record p { current_call = some c' }, some o)

  -- The manager's handle of the channel to the socket is shared with the call that it placed.
  abbrev through_connection :
      CallConnection t → Option (InnerSipManager t k) → Option (InnerSipManager t k)
  through_connection connection none = none
  through_connection connection (some i) = some (record i { message_sender = connection.sender })

  abbrev pub sent_by : CallConnection t → Prog → Prog
  sent_by connection p = record p {
    sip_manager = record p.sip_manager {
      inner = through_connection connection p.sip_manager.inner;
    };
  }

  abbrev pub answered :
      Supply t tx rx k
      → Prog
      → CallConnection t × Option (Outcome (OutgoingCallResponse t))
      → Result
  answered a p (connection, none) = (sent_by connection p, none)
  answered a p (connection, some (ok (Outgoing.started connection' params))) =
      (start_call a (sent_by connection p) connection' params, some (ok tt))
  answered a p (connection, some (ok (Outgoing.refused code))) =
      (sent_by connection p, some (ok tt))
  answered a p (connection, some (err e)) = (sent_by connection p, some (err e))
  answered a p (connection, some panic) = (sent_by connection p, some panic)

  -- The answer is there in time, or the wait failed, or the time is over after `peek_messages`.
  abbrev pub timed :
      Supply t tx rx k → Prog → OutgoingCall t × Option (Outcome PeekOutgoingCallResponse) → Result
  timed a p (c, some (ok _)) = answered a p (into_call_response r t w d a.peek_messages c a.uuid)
  timed a p (c, some (err e)) = (sent_by c.call_connection p, some (ok tt))
  timed a p (c, some panic) = (sent_by c.call_connection p, some panic)
  timed a p (c, none) = let (c', o) = cancel_call r t w c in (sent_by c'.call_connection p, some o)

  abbrev pub place :
      Supply t tx rx k → Prog → SipManager t calls incoming k × Outcome (OutgoingCall t) → Result
  place a p (m, ok c) = timed a (with_manager p m) (peek_call_response r t w d a.peek_messages c)
  place a p (m, err e) = (with_manager p m, some (err e))
  place a p (m, panic) = (with_manager p m, some panic)

  abbrev pub call_number : Supply t tx rx k → Prog → List Text → Result
  call_number a p (number ∷ []) =
      place a p (call r t w features k calls incoming a.ids a.message_ends p.sip_manager number)
  call_number a p _ = (p, some (ok tt))

  abbrev pub by_command : Supply t tx rx k → Prog → List Text → Command → Result
  by_command a p arguments accept_command =
      accept_next a p (recv_incoming_call t calls incoming k p.sip_manager)
  by_command a p arguments reject_command =
      reject_next a p (recv_incoming_call t calls incoming k p.sip_manager)
  by_command a p arguments hangup_command = hang_up_current p p.current_call
  by_command a p arguments call_command = call_number a p arguments
  by_command a p arguments other_command = (p, some (ok tt))

  -- `command[0]` of no piece at all is out of range.
  abbrev pub by_words : Supply t tx rx k → Prog → List Text → Result
  by_words a p [] = (p, some panic)
  by_words a p (word ∷ arguments) = by_command a p arguments (command_of word)

  unfoldable pub handle_command_input : Supply t tx rx k → Text → Prog → Result
  handle_command_input a line p = by_words a p (split 32 line)
