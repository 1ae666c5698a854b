-- ===== src/Call/Handler/Ending.antt =====
-- How a call ends in src/call/call_handler.rs: who sends what, and when the handler stops.
use simple_sip_rs.Prelude.{
  ℕ, ◌+◌, ◌≡◌, refl, sym, subst, ◌⊎◌, inl, inr, true, false, List, [], ◌∷◌, ◌++◌, none, some, Text,
  ok, err, panic, send_failed, Bool-cases, arith,
}
use simple_sip_rs.Prelude.Word.{u32}
use simple_sip_rs.Channels.{IsSender}
use simple_sip_rs.Sip.{
  Rsip, IsRsip, Method, bye, status_ok, via, cseq, call_id, from, to, Headers, Request, SipMessage,
  request, response,
}
use simple_sip_rs.Call.Session.{SessionParameters}
use simple_sip_rs.Call.Dialog.{party, get_headers_response, response_headers, get_next_cseq}
use simple_sip_rs.Call.Dialog.Parties.{request_parties, response_parties}
use simple_sip_rs.Call.Runtime.{Runtime, send_message}
use simple_sip_rs.Call.Handler.{
  CallHandler, Ready, is_running, notify_call_hangup, bye_request, send, hangup, handle_bye_request,
  handle_sip_request, by_method, handle_sip_message, drop, run, call_task,
}

module _ (r : Rsip) (t : Runtime) where
  -- What the call has sent to the socket, and told its user.
  abbrev pub messages : CallHandler t → List SipMessage
  messages h = t.message_tx.sent h.connection.sender

  abbrev pub ok_response : Headers → SipMessage
  ok_response headers = response (record {
    status_code = status_ok;
    version = r.version_default;
    headers = headers;
    body = [];
  })

  -- A send either puts the message behind the others or leaves them, and changes nothing else.
  pub send_cases :
      (h : CallHandler t) (m : SipMessage)
      → IsSender t.message_tx
      → let (h', res) = send r t h m in
        ((res ≡ ok tt) × (messages h' ≡ messages h ++ m ∷ []))
        ⊎ ((res ≡ err send_failed) × (messages h' ≡ messages h))
  unfolding send_message
  send_cases h m law = elim (Bool-cases (t.message_tx.send h.connection.sender m).1) [
    | inl done ↦ inl (rw done, law.send_ok _ m done)
    | inr lost ↦ inr (rw lost, law.send_failed _ m lost)
  ]

  -- A BYE of the session under a number: its target and headers are those of the dialog.
  abbrev pub IsByeOf : SessionParameters → ℕ → Request → Type 0
  IsByeOf s n q =
      (q.method ≡ bye)
      × (q.uri ≡ s.remote.uri)
      × (r.find_header cseq q.headers ≡ some (r.cseq_text n bye))
      × (r.find_header call_id q.headers ≡ some s.call_id)
      × (r.find_header from q.headers ≡ some (r.address_text (party s.local.uri s.local.tag)))
      × (r.find_header to q.headers ≡ some (r.address_text (party s.remote.uri s.remote.tag)))

  bye_request-IsByeOf :
      (s : SessionParameters) (uuid : Text) (n : ℕ)
      → IsRsip r
      → IsByeOf s n (bye_request r t s uuid n)
  unfolding bye_request
  bye_request-IsByeOf s uuid n laws =
      let parties = request_parties laws s uuid in
      (
        refl,
        refl,
        simp laws.find-unique_push,
        simp (laws.find-unique_push, parties.0),
        simp (laws.find-unique_push, parties.1),
        simp (laws.find-unique_push, parties.2),
      )

  -- Hanging up takes the next sequence number and sends one BYE under it, to the remote URI, with
  -- the session's call id, its local party in From and its remote party in To; the call is ended
  -- if the send succeeds, and else it goes on as it was, nothing is sent and the error is
  -- returned. It assumes the laws of the SIP library and of the channel.
  pub hangup_outcome :
      (h : CallHandler t) (uuid : Text)
      → IsRsip r
      → IsSender t.message_tx
      → let (h', res) = hangup r t h uuid in
        let n : ℕ = u32 (h.session_params.cseq + 1) in
        let q = bye_request r t h.session_params uuid n in
        (h'.session_params.cseq ≡ n)
        × IsByeOf h.session_params n q
        × (((res ≡ ok tt)
              × (h'.is_terminated ≡ true)
              × (messages h' ≡ messages h ++ request q ∷ []))
            ⊎ ((res ≡ err send_failed)
                × (h'.is_terminated ≡ h.is_terminated)
                × (messages h' ≡ messages h)))
  unfolding hangup get_next_cseq notify_call_hangup send_message
  hangup_outcome h uuid laws law =
      let n : ℕ = u32 (h.session_params.cseq + 1) in
      let m = request (bye_request r t h.session_params uuid n) in
      let is_bye = bye_request-IsByeOf h.session_params uuid n laws in
      elim (Bool-cases (t.message_tx.send h.connection.sender m).1) [
        | inl done ↦ rw done (refl, is_bye, inl (refl, refl, law.send_ok _ m done))
        | inr lost ↦ rw lost (refl, is_bye, inr (refl, refl, law.send_failed _ m lost))
      ]

  dispatch_bye :
      (h : CallHandler t) (q : Request)
      → q.method ≡ bye
      → handle_sip_message r t h (request q) ≡ handle_bye_request r t h q
  unfolding handle_sip_message handle_sip_request
  dispatch_bye h q is_bye =
      subst (λ (m : Method). by_method r t m h q ≡ handle_bye_request r t h q) (sym is_bye) refl

  -- A BYE with a Via and a well-formed CSeq ends the call and keeps its session; one 200 response
  -- with the headers of the dialog is sent, or, where it cannot be sent, nothing is and the error
  -- is returned.
  pub bye_outcome :
      (h : CallHandler t) (q : Request) (v : Text) (n : ℕ) (m : Method)
      → IsRsip r
      → IsSender t.message_tx
      → q.method ≡ bye
      → r.find_header via q.headers ≡ some v
      → r.find_header cseq q.headers ≡ some (r.cseq_text n m)
      → let (h', res) = handle_sip_message r t h (request q) in
        let answer = ok_response (response_headers r h.session_params v (r.cseq_text n m)) in
        (h'.is_terminated ≡ true)
        × (h'.session_params ≡ h.session_params)
        × (((res ≡ ok tt) × (messages h' ≡ messages h ++ answer ∷ []))
            ⊎ ((res ≡ err send_failed) × (messages h' ≡ messages h)))
  unfolding handle_bye_request notify_call_hangup send_message
  bye_outcome h q v n m laws law is_bye hv hc =
      let answer = ok_response (response_headers r h.session_params v (r.cseq_text n m)) in
      let e = (response_parties laws h.session_params q v n m hv hc).0 in
      rw (dispatch_bye h q is_bye, handle_bye_request, e)
        (elim (Bool-cases (t.message_tx.send h.connection.sender answer).1) [
          | inl done ↦ rw done (refl, refl, inl (refl, law.send_ok _ answer done))
          | inr lost ↦ rw lost (refl, refl, inr (refl, law.send_failed _ answer lost))
        ])

  -- A BYE without a Via header panics: the handler is left as it was and nothing is answered.
  pub bye_panics :
      (h : CallHandler t) (q : Request)
      → q.method ≡ bye
      → r.find_header via q.headers ≡ none
      → handle_sip_message r t h (request q) ≡ (h, panic)
  unfolding handle_bye_request get_headers_response
  bye_panics h q is_bye hv =
      rw (dispatch_bye h q is_bye, handle_bye_request, get_headers_response, hv)

  pub terminated-stops : (h : CallHandler t) → h.is_terminated ≡ true → is_running r t h ≡ false
  unfolding is_running
  terminated-stops h e = ground (arith, e)

  -- A handler that no longer runs, because its call has ended or its user has dropped the control
  -- channel, does nothing more whatever is scheduled, and the task sends no message.
  pub run_stopped :
      (h : CallHandler t) (schedule : List (Ready × Text))
      → is_running r t h ≡ false
      → (run r t h schedule ≡ h) × (messages (call_task r t h schedule) ≡ messages h)
  unfolding run drop call_task
  run_stopped h [] stopped = (refl, refl)
  run_stopped h ((ready, uuid) ∷ later) stopped = rw stopped (refl, refl)
