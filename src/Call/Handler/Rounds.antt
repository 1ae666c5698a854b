-- ===== src/Call/Handler/Rounds.antt =====
-- One round of the loop of src/call/call_handler.rs, and what it leaves in the channel of the call.
use simple_sip_rs.Prelude.{
  ℕ, ◌≡◌, refl, ap, ◌∙◌, inl, inr, Bool, true, false, List, ◌∷◌, Option, none, some, Text, Outcome,
  ok, err, panic, arith, ok_or, bad_header, Bool-cases,
}
use simple_sip_rs.Channels.{IsReceiver}
use simple_sip_rs.Sip.{
  Rsip, Method, register, invite, ack, bye, cancel, options, other_method, cseq, Request,
  SipMessage, request, response,
}
use simple_sip_rs.Call.Dialog.{get_next_cseq}
use simple_sip_rs.Call.Runtime as Runtime
use simple_sip_rs.Call.Runtime.{Runtime, CallControl, audio_out_empty, finished, send_message}
use simple_sip_rs.Utils as Utils
use simple_sip_rs.Prelude.Word.{u32}
use simple_sip_rs.Prelude.{◌+◌}
use simple_sip_rs.Call.Handler.{
  CallHandler, Ready, sip_ready, is_running, one_sided, by_method, handle_sip_request,
  handle_sip_response, response_cseq, unhandled, handle_sip_message, handle_next, run,
  control_ready, hangup, on_control, handle_call_message, notify_call_hangup, bye_request,
}

abbrev is_bye : Method → Bool
is_bye bye = true
is_bye _ = false

-- A message that does not end a call.
abbrev pub IsPassed : SipMessage → Type 0
IsPassed (request q) = is_bye q.method ≡ false
IsPassed (response res) = Unit {0}

abbrev pub is_panic : Outcome (Unit {0}) → Bool
is_panic panic = true
is_panic _ = false

module _ (r : Rsip) (t : Runtime) where
  -- The messages that the handler gets from now on.
  abbrev pub inbox : CallHandler t → List SipMessage
  inbox h = t.message_rx.arrivals h.connection.receiver

  -- The handler after it has received a message.
  abbrev pub after_recv : CallHandler t → CallHandler t
  after_recv h = record h {
    connection = record h.connection { receiver = (t.message_rx.recv h.connection.receiver).0 };
  }

  abbrev Passes : CallHandler t → CallHandler t × Outcome (Unit {0}) → Type 0
  Passes h (h', o) = (h' ≡ h) × (is_panic o ≡ false)

  by_method-Passes :
      (h : CallHandler t) (m : Method) (q : Request)
      → is_bye m ≡ false
      → Passes h (by_method r t m h q)
  by_method-Passes h bye q p = absurd (ground (arith, p))
  by_method-Passes h register q p = (refl, refl)
  by_method-Passes h invite q p = (refl, refl)
  by_method-Passes h ack q p = (refl, refl)
  by_method-Passes h cancel q p = (refl, refl)
  by_method-Passes h options q p = (refl, refl)
  by_method-Passes h (other_method x) q p = (refl, refl)

  unhandled-Passes :
      (h : CallHandler t) (o : Option Method) → Passes h (unhandled r t (ok_or o bad_header) h)
  unhandled-Passes h none = (refl, refl)
  unhandled-Passes h (some m) = (refl, refl)

  response_cseq-Passes : (h : CallHandler t) (o : Option Text) → Passes h (response_cseq r t o h)
  response_cseq-Passes h none = (refl, refl)
  response_cseq-Passes h (some c) = unhandled-Passes h (r.cseq_method c)

  handle_sip_message-Passes :
      (h : CallHandler t) (m : SipMessage) → IsPassed m → Passes h (handle_sip_message r t h m)
  unfolding handle_sip_message handle_sip_request handle_sip_response
  handle_sip_message-Passes h (request q) p = by_method-Passes h q.method q p
  handle_sip_message-Passes h (response res) p =
      response_cseq-Passes h (r.find_header cseq res.headers)

  goes_on :
      (h rest : CallHandler t) (o : Outcome (Unit {0}))
      → is_panic o ≡ false
      → (elim o [ panic ↦ h | _ ↦ rest ]) ≡ rest
  goes_on h rest (ok u) p = refl
  goes_on h rest (err e) p = refl
  goes_on h rest panic p = absurd (ground (arith, p))

  pub running-open : (h : CallHandler t) → is_running r t h ≡ true → one_sided r t h ≡ false
  unfolding is_running
  running-open h e = ground (arith, e)

  takes_message :
      (h : CallHandler t) (m : SipMessage) (uuid : Text)
      → one_sided r t h ≡ false
      → (t.message_rx.recv h.connection.receiver).1 ≡ some m
      → handle_next r t h sip_ready uuid ≡ handle_sip_message r t (after_recv h) m
  unfolding handle_next Runtime.recv
  takes_message h m uuid two_sided got = rw (two_sided, got) refl

  pub calm_round :
      (h : CallHandler t) (ready : Ready) (uuid : Text) (later : List (Ready × Text))
      → is_running r t h ≡ true
      → is_panic (handle_next r t h ready uuid).1 ≡ false
      → run r t h ((ready, uuid) ∷ later) ≡ run r t (handle_next r t h ready uuid).0 later
  unfolding run
  calm_round h ready uuid later running calm =
      let (h', o) = handle_next r t h ready uuid in
      rw running (goes_on h' (run r t h' later) o calm)

  -- A round of the loop that takes a message.
  pub message_round :
      (h : CallHandler t) (m : SipMessage) (ms : List SipMessage) (uuid : Text)
      (later : List (Ready × Text))
      → IsReceiver t.message_rx
      → is_running r t h ≡ true
      → inbox h ≡ m ∷ ms
      → is_panic (handle_sip_message r t (after_recv h) m).1 ≡ false
      → run r t h ((sip_ready, uuid) ∷ later)
        ≡ run r t (handle_sip_message r t (after_recv h) m).0 later
  message_round h m ms uuid later law running e calm =
      let got = (law.recv_next h.connection.receiver m ms e).0 in
      let same = takes_message h m uuid (running-open h running) got in
      calm_round h sip_ready uuid later running (rw same calm)
      ∙ ap (λ (x : CallHandler t × Outcome (Unit {0})). run r t x.0 later) same

  -- A message that does not end the call is taken off the channel, and that is all.
  pub passed_round :
      (h : CallHandler t) (m : SipMessage) (ms : List SipMessage) (uuid : Text)
      (later : List (Ready × Text))
      → IsReceiver t.message_rx
      → is_running r t h ≡ true
      → inbox h ≡ m ∷ ms
      → IsPassed m
      → run r t h ((sip_ready, uuid) ∷ later) ≡ run r t (after_recv h) later
  passed_round h m ms uuid later law running e p =
      let same = handle_sip_message-Passes (after_recv h) m p in
      message_round h m ms uuid later law running e same.1
      ∙ ap (λ (h' : CallHandler t). run r t h' later) same.0

  hangup-calm :
      (h : CallHandler t) (uuid : Text)
      → let (h', o) = hangup r t h uuid in (is_panic o ≡ false) × (inbox h' ≡ inbox h)
  unfolding hangup get_next_cseq notify_call_hangup send_message
  hangup-calm h uuid =
      let n : ℕ = u32 (h.session_params.cseq + 1) in
      let m = request (bye_request r t h.session_params uuid n) in
      elim (Bool-cases (t.message_tx.send h.connection.sender m).1) [
        | inl done ↦ rw done (refl, refl)
        | inr lost ↦ rw lost (refl, refl)
      ]

  on_control-calm :
      (h : CallHandler t) (c : Option CallControl) (uuid : Text)
      → let (h', o) = on_control r t h c uuid in (is_panic o ≡ false) × (inbox h' ≡ inbox h)
  unfolding handle_call_message
  on_control-calm h none uuid = (refl, refl)
  on_control-calm h (some CallControl.hangup) uuid = hangup-calm h uuid
  on_control-calm h (some audio_out_empty) uuid = (refl, refl)
  on_control-calm h (some finished) uuid = (refl, refl)

  -- What the user asks for leaves the messages of the server in their channel.
  pub control_round :
      (h : CallHandler t) (uuid : Text)
      → is_running r t h ≡ true
      → let (h', o) = handle_next r t h control_ready uuid in
        (is_panic o ≡ false) × (inbox h' ≡ inbox h)
  unfolding handle_next Utils.recv
  control_round h uuid running =
      let (c, m) = Utils.recv t.control_tx t.control_rx h.call_channel in
      rw (running-open h running) (on_control-calm (record h { call_channel = c }) m uuid)
