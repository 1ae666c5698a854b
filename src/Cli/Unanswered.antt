-- ===== src/Cli/Unanswered.antt =====
-- The command `call` of examples/cli.rs, where nobody answers: from the line of the user, through
-- src/manager.rs and src/call/outgoing_call.rs, to the messages for the server.
use simple_sip_rs.Prelude.{
  ℕ, ◌≡◌, refl, ap, sym, subst, ◌∙◌, ◌⊎◌, inl, inr, true, false, List, [], ◌∷◌, ◌++◌, none, some,
  Text, text_eq, codes, ok, err, send_failed, length, Each, ◌==◌, Bool-cases,
}
use mathlib.Core.List.{append_assoc}
use simple_sip_rs.Context.{get_next_udp_port}
use simple_sip_rs.Channels.{Sender, IsSender, Receiver, IsReceiver}
use simple_sip_rs.Sip.{Rsip, SipMessage, request}
use simple_sip_rs.Sdp.{WebrtcSdp, IsWebrtcSdp}
use simple_sip_rs.SipProto.Register.{Digest}
use simple_sip_rs.Media.Features.{Features}
use simple_sip_rs.Media.TelephoneEvents.{Media}
use simple_sip_rs.Call.Runtime.{Runtime, send_message}
use simple_sip_rs.Call.Incoming.{IncomingCall}
use simple_sip_rs.Call.Outgoing.{
  OutgoingCall, generate_invite, generate_cancel, get_base_headers, send_invite, cancel_call,
}
use simple_sip_rs.Call.Outgoing.Answer.{peek_call_response}
use simple_sip_rs.Call.Outgoing.Waiting.{AllIgnored}
use simple_sip_rs.Call.Outgoing.Unanswered.{peek_waits}
use simple_sip_rs.Call.Ongoing.{Tasks}
use simple_sip_rs.Connection.SocketData.{lookup}
use simple_sip_rs.Manager.{InnerSipManager, SipManager}
use simple_sip_rs.Manager.Placing.{call}
use simple_sip_rs.Manager.Invited.{prepared, call_lem, opened}
use simple_sip_rs.Cli.Commands.{
  Supply, Prog, split, command_of, with_manager, timed, place, handle_command_input, Result,
}

abbrev pub IsOneWord : Text → Type 0
IsOneWord = Each (λ (b : ℕ). (b == 32) ≡ false)

split_word : (word : Text) → IsOneWord word → split 32 word ≡ word ∷ []
unfolding split
split_word [] h = refl
split_word (b ∷ word) h = rw (h.0, split_word word h.1) refl

split_call :
    (number : Text)
    → IsOneWord number
    → split 32 (codes "call" ++ 32 ∷ number) ≡ codes "call" ∷ number ∷ []
unfolding split
split_call number h = rw (split_word number h) refl

module _ (r : Rsip) (t : Runtime) (w : WebrtcSdp) (d : Digest) (features : Features)
    (tx : Sender Media) (rx : Receiver Media) (k : Tasks) (calls : Sender (IncomingCall t))
    (incoming : Receiver (IncomingCall t)) where
  abbrev State : Type 0
  State = Prog r t w d features tx rx k calls incoming

  -- The call of a command, before its INVITE is sent.
  abbrev pub to_call : Supply t tx rx k → State → InnerSipManager t k → Text → OutgoingCall t
  to_call a p i number =
      prepared r t w features k a.ids a.message_ends.1 p.sip_manager.context i number

  -- After its INVITE has been sent.
  abbrev invited_call : Supply t tx rx k → State → InnerSipManager t k → Text → OutgoingCall t
  invited_call a p i number =
      let c = to_call a p i number in
      record c {
        call_connection = record c.call_connection {
          sender = (t.message_tx.send i.message_sender (request (generate_invite r t w c))).0;
        };
      }

  abbrev invited_manager :
      Supply t tx rx k → State → InnerSipManager t k → Text → SipManager t calls incoming k
  invited_manager a p i number = record p.sip_manager {
    context = (get_next_udp_port p.sip_manager.context).0;
    inner = some (record (opened r t w features k calls incoming a.ids a.message_ends.0 i) {
      message_sender = (invited_call a p i number).call_connection.sender;
    });
  }

  place_lem :
      (a : Supply t tx rx k) (p : State) (i : InnerSipManager t k) (number : Text)
      → IsWebrtcSdp w
      → p.sip_manager.inner ≡ some i
      → lookup a.ids.call_id i.socket_data.call_channels ≡ none
      → (t.message_tx.send i.message_sender
          (request (generate_invite r t w (to_call a p i number)))).1
        ≡ true
      → call r t w features k calls incoming a.ids a.message_ends p.sip_manager number
        ≡ (invited_manager a p i number, ok (invited_call a p i number))
  unfolding send_invite send_message
  place_lem a p i number law e fresh done =
      rw
        (
          call_lem r t w features k calls incoming a.ids a.message_ends p.sip_manager i number law e
              fresh,
          done,
        )
        refl

  command_lem :
      (a : Supply t tx rx k) (p : State) (number : Text)
      → IsOneWord number
      → handle_command_input r t w d features tx rx k calls incoming a
          (codes "call" ++ 32 ∷ number)
          p
        ≡ place r t w d features tx rx k calls incoming a p
            (call r t w features k calls incoming a.ids a.message_ends p.sip_manager number)
  unfolding handle_command_input command_of text_eq
  command_lem a p number word = rw (split_call number word) refl

  abbrev Ended : Type 0
  Ended = Result r t w d features tx rx k calls incoming

  -- What there is after the command: the call of before, and the messages that were sent.
  abbrev Cancelled : State → InnerSipManager t k → OutgoingCall t → Ended → Type 0
  Cancelled p i c (p', o) =
      let invite = request (generate_invite r t w c) in
      let cancel = request (generate_cancel r t w c) in
      (p'.current_call ≡ p.current_call)
      × ((i' : InnerSipManager t k) × (p'.sip_manager.inner ≡ some i')
          × (((o ≡ some (ok tt))
                × (t.message_tx.sent i'.message_sender
                    ≡ t.message_tx.sent i.message_sender ++ invite ∷ cancel ∷ []))
              ⊎ ((o ≡ some (err send_failed))
                  × (t.message_tx.sent i'.message_sender
                      ≡ t.message_tx.sent i.message_sender ++ invite ∷ []))))

  -- The time is over for a call that has sent its INVITE.
  timed-Cancelled :
      (a : Supply t tx rx k) (p : State) (i i1 : InnerSipManager t k) (c c' : OutgoingCall t)
      → IsSender t.message_tx
      → p.sip_manager.inner ≡ some i1
      → generate_cancel r t w c' ≡ generate_cancel r t w c
      → t.message_tx.sent c'.call_connection.sender
        ≡ t.message_tx.sent i.message_sender ++ request (generate_invite r t w c) ∷ []
      → Cancelled p i c (timed r t w d features tx rx k calls incoming a p (c', none))
  unfolding cancel_call send_message
  timed-Cancelled a p i i1 c c' law e same sent =
      let tx0 = c'.call_connection.sender in
      let cancel = request (generate_cancel r t w c) in
      let i' : InnerSipManager t k = record i1 {
        message_sender = (t.message_tx.send tx0 cancel).0;
      } in
      elim (Bool-cases (t.message_tx.send tx0 cancel).1) [
        | inl done ↦
            rw (e, same, done)
              (
                refl,
                (
                  i',
                  refl,
                  inl (
                    refl,
                    law.send_ok tx0 cancel done
                        ∙ ap (λ (l : List SipMessage). l ++ cancel ∷ []) sent
                        ∙ append_assoc (t.message_tx.sent i.message_sender)
                            (request (generate_invite r t w c) ∷ []) (cancel ∷ []),
                  ),
                ),
              )
        | inr lost ↦
            rw (e, same, lost)
              (refl, (i', refl, inr (refl, law.send_failed tx0 cancel lost ∙ sent)))
      ]

  -- Where the manager is connected, no call has the call id that is drawn and the INVITE is
  -- taken, the command call with one word behind it, for which only messages that are passed over
  -- arrive before its time is over, sends the INVITE and then the CANCEL of the same call behind
  -- what was sent before; where the CANCEL cannot be sent, only the INVITE, and the error is
  -- returned. The user's current call stays. It assumes the laws of the channels, and that
  -- webrtc_sdp adds the codecs and attributes that it is given.
  pub unanswered_cancelled :
      (a : Supply t tx rx k) (p : State) (i : InnerSipManager t k) (number : Text)
      (skipped rest : List SipMessage)
      → IsWebrtcSdp w
      → IsSender t.message_tx
      → IsReceiver t.message_rx
      → IsOneWord number
      → p.sip_manager.inner ≡ some i
      → lookup a.ids.call_id i.socket_data.call_channels ≡ none
      → (t.message_tx.send i.message_sender
          (request (generate_invite r t w (to_call a p i number)))).1
        ≡ true
      → t.message_rx.arrivals a.message_ends.1 ≡ skipped ++ rest
      → AllIgnored r t w d skipped
      → a.peek_messages ≡ length skipped
      → let (p', o) =
          handle_command_input r t w d features tx rx k calls incoming a
            (codes "call" ++ 32 ∷ number)
            p in
        let c = to_call a p i number in
        let invite = request (generate_invite r t w c) in
        let cancel = request (generate_cancel r t w c) in
        (p'.current_call ≡ p.current_call)
        × ((i' : InnerSipManager t k) × (p'.sip_manager.inner ≡ some i')
            × (((o ≡ some (ok tt))
                  × (t.message_tx.sent i'.message_sender
                      ≡ t.message_tx.sent i.message_sender ++ invite ∷ cancel ∷ []))
                ⊎ ((o ≡ some (err send_failed))
                    × (t.message_tx.sent i'.message_sender
                        ≡ t.message_tx.sent i.message_sender ++ invite ∷ []))))
  unfolding generate_invite generate_cancel get_base_headers
  unanswered_cancelled a p i number skipped rest law sender receiver word e fresh done arrive
        ignored time =
      let c = to_call a p i number in
      let c1 = invited_call a p i number in
      let q =
        with_manager r t w d features tx rx k calls incoming p (invited_manager a p i number) in
      let x = peek_call_response r t w d (length skipped) c1 in
      let (waits, same, kept) = peek_waits r t w d c1 skipped rest receiver arrive ignored refl in
      let sent = ap t.message_tx.sent kept ∙ sender.send_ok i.message_sender _ done in
      let steps : handle_command_input r t w d features tx rx k calls incoming a
            (codes "call" ++ 32 ∷ number) p
          ≡ timed r t w d features tx rx k calls incoming a q (x.0, none) =
        command_lem a p number word
        ∙ ap (place r t w d features tx rx k calls incoming a p)
            (place_lem a p i number law e fresh done)
        ∙ ap
            (λ n.
              timed r t w d features tx rx k calls incoming a q (peek_call_response r t w d n c1))
            time
        ∙ ap (λ o. timed r t w d features tx rx k calls incoming a q (x.0, o)) waits in
      subst (Cancelled p i c) (sym steps) (timed-Cancelled a q i _ c x.0 sender refl same sent)
