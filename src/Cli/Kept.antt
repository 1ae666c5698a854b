-- ===== src/Cli/Kept.antt =====
-- What the commands of examples/cli.rs leave alone: the samples that are to be played or were
-- recorded.
use simple_sip_rs.Prelude.{
  ◌≡◌, refl, List, [], ◌∷◌, Option, none, some, Text, Outcome, ok, err, panic,
}
use simple_sip_rs.Channels.{Sender, Receiver}
use simple_sip_rs.Sip.{Rsip}
use simple_sip_rs.Sdp.{WebrtcSdp}
use simple_sip_rs.SipProto.Register.{Digest}
use simple_sip_rs.Media.Features.{Features}
use simple_sip_rs.Media.TelephoneEvents.{Media, audio, telephone_event, output_empty}
use simple_sip_rs.Call.Runtime.{Runtime, CallConnection, CallControl}
use simple_sip_rs.Call.Incoming as Incoming
use simple_sip_rs.Call.Incoming.{IncomingCall, IncomingCallResult}
use simple_sip_rs.Call.Outgoing as Outgoing
use simple_sip_rs.Call.Outgoing.{OutgoingCall, OutgoingCallResponse, PeekOutgoingCallResponse}
use simple_sip_rs.Call.Outgoing.Answer.{peek_call_response, into_call_response}
use simple_sip_rs.Call.Ongoing.{Tasks, Call, Ready, Either, left, right, recv_either}
use simple_sip_rs.Manager.{SipManager, recv_incoming_call}
use simple_sip_rs.Manager.Placing.{call}
use simple_sip_rs.Cli.Session.{Round, unwrapped_result, read, lost, lose}
use simple_sip_rs.Prelude.{subst, sym, ℕ}
use simple_sip_rs.Cli.Commands.{
  Supply, Prog, split, Command, accept_command, reject_command, hangup_command, call_command,
  other_command, command_of, with_manager, accepted, accept_next, reject_next, hang_up_current,
  answered, timed, place, call_number, by_command, by_words, handle_command_input,
}

module _ (r : Rsip) (t : Runtime) (w : WebrtcSdp) (d : Digest) (features : Features)
    (tx : Sender Media) (rx : Receiver Media) (k : Tasks) (calls : Sender (IncomingCall t))
    (incoming : Receiver (IncomingCall t)) where
  abbrev State : Type 0
  State = Prog r t w d features tx rx k calls incoming

  abbrev pub SameAudio : State → State → Type 0
  SameAudio p p' =
      (p'.buffer_play ≡ p.buffer_play) × (p'.played ≡ p.played) × (p'.recorder ≡ p.recorder)

  accepted-SameAudio :
      (a : Supply t tx rx k) (p : State)
      (x : IncomingCall t × Option (Outcome (IncomingCallResult t)))
      → SameAudio p (accepted r t w d features tx rx k calls incoming a p x).0
  accepted-SameAudio a p (c, none) = (refl, refl, refl)
  accepted-SameAudio a p (c, some (ok (Incoming.started connection params))) = (refl, refl, refl)
  accepted-SameAudio a p (c, some (ok Incoming.cancelled)) = (refl, refl, refl)
  accepted-SameAudio a p (c, some (err e)) = (refl, refl, refl)
  accepted-SameAudio a p (c, some panic) = (refl, refl, refl)

  accept_next-SameAudio :
      (a : Supply t tx rx k) (p : State)
      (x : SipManager t calls incoming k × Outcome (Option (IncomingCall t)))
      → SameAudio p (accept_next r t w d features tx rx k calls incoming a p x).0
  accept_next-SameAudio a p (m, ok (some c)) =
      accepted-SameAudio a (with_manager r t w d features tx rx k calls incoming p m)
        (Incoming.accept r t w a.search_fuel c)
  accept_next-SameAudio a p (m, ok none) = (refl, refl, refl)
  accept_next-SameAudio a p (m, err e) = (refl, refl, refl)
  accept_next-SameAudio a p (m, panic) = (refl, refl, refl)

  reject_next-SameAudio :
      (a : Supply t tx rx k) (p : State)
      (x : SipManager t calls incoming k × Outcome (Option (IncomingCall t)))
      → SameAudio p (reject_next r t w d features tx rx k calls incoming a p x).0
  reject_next-SameAudio a p (m, ok (some c)) = (refl, refl, refl)
  reject_next-SameAudio a p (m, ok none) = (refl, refl, refl)
  reject_next-SameAudio a p (m, err e) = (refl, refl, refl)
  reject_next-SameAudio a p (m, panic) = (refl, refl, refl)

  hang_up_current-SameAudio :
      (p : State) (c : Option (Call t tx rx k))
      → SameAudio p (hang_up_current r t w d features tx rx k calls incoming p c).0
  hang_up_current-SameAudio p none = (refl, refl, refl)
  hang_up_current-SameAudio p (some c) = (refl, refl, refl)

  answered-SameAudio :
      (a : Supply t tx rx k) (p : State)
      (x : CallConnection t × Option (Outcome (OutgoingCallResponse t)))
      → SameAudio p (answered r t w d features tx rx k calls incoming a p x).0
  answered-SameAudio a p (connection, none) = (refl, refl, refl)
  answered-SameAudio a p (connection, some (ok (Outgoing.started connection' params))) =
      (refl, refl, refl)
  answered-SameAudio a p (connection, some (ok (Outgoing.refused code))) = (refl, refl, refl)
  answered-SameAudio a p (connection, some (err e)) = (refl, refl, refl)
  answered-SameAudio a p (connection, some panic) = (refl, refl, refl)

  timed-SameAudio :
      (a : Supply t tx rx k) (p : State)
      (x : OutgoingCall t × Option (Outcome PeekOutgoingCallResponse))
      → SameAudio p (timed r t w d features tx rx k calls incoming a p x).0
  timed-SameAudio a p (c, some (ok answer)) =
      answered-SameAudio a p (into_call_response r t w d a.peek_messages c a.uuid)
  timed-SameAudio a p (c, some (err e)) = (refl, refl, refl)
  timed-SameAudio a p (c, some panic) = (refl, refl, refl)
  timed-SameAudio a p (c, none) = (refl, refl, refl)

  place-SameAudio :
      (a : Supply t tx rx k) (p : State)
      (x : SipManager t calls incoming k × Outcome (OutgoingCall t))
      → SameAudio p (place r t w d features tx rx k calls incoming a p x).0
  place-SameAudio a p (m, ok c) =
      timed-SameAudio a (with_manager r t w d features tx rx k calls incoming p m)
        (peek_call_response r t w d a.peek_messages c)
  place-SameAudio a p (m, err e) = (refl, refl, refl)
  place-SameAudio a p (m, panic) = (refl, refl, refl)

  call_number-SameAudio :
      (a : Supply t tx rx k) (p : State) (words : List Text)
      → SameAudio p (call_number r t w d features tx rx k calls incoming a p words).0
  call_number-SameAudio a p [] = (refl, refl, refl)
  call_number-SameAudio a p (number ∷ []) =
      place-SameAudio a p
        (call r t w features k calls incoming a.ids a.message_ends p.sip_manager number)
  call_number-SameAudio a p (number ∷ more ∷ words) = (refl, refl, refl)

  by_command-SameAudio :
      (a : Supply t tx rx k) (p : State) (words : List Text) (c : Command)
      → SameAudio p (by_command r t w d features tx rx k calls incoming a p words c).0
  by_command-SameAudio a p words accept_command =
      accept_next-SameAudio a p (recv_incoming_call t calls incoming k p.sip_manager)
  by_command-SameAudio a p words reject_command =
      reject_next-SameAudio a p (recv_incoming_call t calls incoming k p.sip_manager)
  by_command-SameAudio a p words hangup_command = hang_up_current-SameAudio p p.current_call
  by_command-SameAudio a p words call_command = call_number-SameAudio a p words
  by_command-SameAudio a p words other_command = (refl, refl, refl)

  by_words-SameAudio :
      (a : Supply t tx rx k) (p : State) (words : List Text)
      → SameAudio p (by_words r t w d features tx rx k calls incoming a p words).0
  by_words-SameAudio a p [] = (refl, refl, refl)
  by_words-SameAudio a p (word ∷ words) = by_command-SameAudio a p words (command_of word)

  handle_command_input-SameAudio :
      (a : Supply t tx rx k) (line : Text) (p : State)
      → SameAudio p (handle_command_input r t w d features tx rx k calls incoming a line p).0
  unfolding handle_command_input
  handle_command_input-SameAudio a line p = by_words-SameAudio a p (split 32 line)

  module _ (from_sample : ℕ → ℕ) where
    unwrapped-same :
        (x : Round r t w d features tx rx k calls incoming from_sample)
        → (unwrapped_result r t w d features tx rx k calls incoming from_sample x).0 ≡ x.0
    unwrapped-same (p, none) = refl
    unwrapped-same (p, some o) = refl

    -- Nor does any other line of the terminal.
    pub read-SameAudio :
        (a : Supply t tx rx k) (line : Outcome (Option Text)) (p : State)
        → SameAudio p (read r t w d features tx rx k calls incoming from_sample p a line).0
    read-SameAudio a (ok (some line)) p =
        let x = handle_command_input r t w d features tx rx k calls incoming a line p in
        subst (SameAudio p) (sym (unwrapped-same x)) (handle_command_input-SameAudio a line p)
    read-SameAudio a (ok none) p = (refl, refl, refl)
    read-SameAudio a (err e) p = (refl, refl, refl)
    read-SameAudio a panic p = (refl, refl, refl)

    lost-SameAudio :
        (p : State) (c : Call t tx rx k) (m : Either (Option CallControl) (Option Media))
        → SameAudio p (lost r t w d features tx rx k calls incoming from_sample p (c, m)).0
    lost-SameAudio p c (left control) = (refl, refl, refl)
    lost-SameAudio p c (right none) = (refl, refl, refl)
    lost-SameAudio p c (right (some (audio samples))) = (refl, refl, refl)
    lost-SameAudio p c (right (some (telephone_event e up))) = (refl, refl, refl)
    lost-SameAudio p c (right (some output_empty)) = (refl, refl, refl)

    -- A message that is lost is in neither buffer.
    pub lose-SameAudio :
        (p : State) (ready : Ready) (c : Option (Call t tx rx k))
        → SameAudio p (lose r t w d features tx rx k calls incoming from_sample p ready c).0
    lose-SameAudio p ready none = (refl, refl, refl)
    lose-SameAudio p ready (some c) =
        let (c', m) = recv_either t tx rx k c ready in lost-SameAudio p c' m
