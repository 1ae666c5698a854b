-- ===== src/Call/Handler/Closing.antt =====
-- How one round of src/call/call_handler.rs closes a call.
use simple_sip_rs.Prelude.{
  ◌≡◌, refl, ap, subst, ◌⊎◌, inl, inr, true, List, [], ◌∷◌, ◌++◌, Option, none, some, Text, Outcome,
  ok, err, panic, Bool-cases, ok_or, bad_header,
}
use simple_sip_rs.Channels.{IsSender}
use simple_sip_rs.Utils as Utils
use simple_sip_rs.Sip.{
  Rsip, Method, register, invite, ack, bye, cancel, options, other_method, status_ok, cseq, Headers,
  Request, SipMessage, request, response,
}
use simple_sip_rs.Call.Dialog.{get_headers_response, get_next_cseq}
use simple_sip_rs.Call.Runtime as Runtime
use simple_sip_rs.Call.Runtime.{Runtime, CallControl, audio_out_empty, finished}
use simple_sip_rs.Call.Handler.{
  CallHandler, Ready, control_ready, sip_ready, notify_call_hangup, bye_request, send, hangup,
  unhandled, response_cseq, handle_sip_response, answer_bye, handle_bye_request, by_method,
  handle_sip_request, handle_sip_message, handle_call_message, on_control, on_sip, select,
  handle_next, one_sided,
}
use simple_sip_rs.Call.Handler.Ending.{messages, ok_response, send_cases}

-- A message that closes a call: a `BYE`, or the answer to one.
abbrev pub IsClosing : SipMessage → Type 0
IsClosing (request q) = q.method ≡ bye
IsClosing (response res) = res.status_code ≡ status_ok

-- At most one closing message, and at most one notice to the user, has been put behind.
abbrev pub Closed : List SipMessage → List SipMessage → Type 0
Closed xs ys = (ys ≡ xs) ⊎ ((m : SipMessage) × IsClosing m × (ys ≡ xs ++ m ∷ []))

abbrev pub Rung : List CallControl → List CallControl → Type 0
Rung xs ys = (ys ≡ xs) ⊎ (ys ≡ xs ++ CallControl.hangup ∷ [])

module _ (r : Rsip) (t : Runtime) where
  -- What the user has been told.
  abbrev pub told : CallHandler t → List CallControl
  told h = t.control_tx.sent h.call_channel.sender

  abbrev pub Kept : CallHandler t → CallHandler t → Type 0
  Kept h h' =
      (messages r t h' ≡ messages r t h) × (told h' ≡ told h) × (h'.is_terminated ≡ h.is_terminated)

  abbrev pub Ended : CallHandler t → CallHandler t → Type 0
  Ended h h' =
      (h'.is_terminated ≡ true)
      × Closed (messages r t h) (messages r t h')
      × Rung (told h) (told h')

  module _ (law : IsSender t.message_tx) (user : IsSender t.control_tx) where
    notify_call_hangup-Rung : (h : CallHandler t) → Rung (told h) (told (notify_call_hangup r t h))
    unfolding notify_call_hangup Utils.send
    notify_call_hangup-Rung h =
        elim (Bool-cases (t.control_tx.send h.call_channel.sender CallControl.hangup).1) [
          | inl done ↦ inr (user.send_ok _ CallControl.hangup done)
          | inr lost ↦ inl (user.send_failed _ CallControl.hangup lost)
        ]

    -- A handler whose user is told of the end, after at most one closing message.
    notified-Ended :
        (h h' : CallHandler t)
        → told h' ≡ told h
        → Closed (messages r t h) (messages r t h')
        → Ended h (notify_call_hangup r t h')
    unfolding notify_call_hangup
    notified-Ended h h' same closed = (
      refl,
      closed,
      subst (λ ts. Rung ts (told (notify_call_hangup r t h'))) same (notify_call_hangup-Rung h'),
    )

    hangup-Kept_or_Ended :
        (h : CallHandler t) (uuid : Text) → let h' = (hangup r t h uuid).0 in Kept h h' ⊎ Ended h h'
    unfolding hangup get_next_cseq Runtime.send_message bye_request
    hangup-Kept_or_Ended h uuid =
        let (s, n) = get_next_cseq h.session_params in
        let h1 = record h { session_params = s } in
        let m = request (bye_request r t h.session_params uuid n) in
        elim (Bool-cases (t.message_tx.send h.connection.sender m).1) [
          | inl done ↦ rw done (
              inr (
                notified-Ended h (send r t h1 m).0 refl
                  (inr (m, refl, law.send_ok h.connection.sender m done))))
          | inr lost ↦ rw lost (inl (law.send_failed h.connection.sender m lost, refl, refl))
        ]

    answer_bye-Kept_or_Ended :
        (h : CallHandler t) (o : Outcome Headers)
        → let h' = (answer_bye r t h o).0 in Kept h h' ⊎ Ended h h'
    answer_bye-Kept_or_Ended h (ok headers) =
        let m = ok_response r t headers in
        inr (
          notified-Ended h (send r t h m).0 refl (elim (send_cases r t h m law) [
            | inl (done, sent) ↦ inr (m, refl, sent)
            | inr (lost, same) ↦ inl same
          ]))
    answer_bye-Kept_or_Ended h (err e) = inl (refl, refl, refl)
    answer_bye-Kept_or_Ended h panic = inl (refl, refl, refl)

    by_method-Kept_or_Ended :
        (h : CallHandler t) (m : Method) (q : Request)
        → let h' = (by_method r t m h q).0 in Kept h h' ⊎ Ended h h'
    unfolding handle_bye_request
    by_method-Kept_or_Ended h bye q =
        answer_bye-Kept_or_Ended h (get_headers_response r h.session_params q)
    by_method-Kept_or_Ended h register q = inl (refl, refl, refl)
    by_method-Kept_or_Ended h invite q = inl (refl, refl, refl)
    by_method-Kept_or_Ended h ack q = inl (refl, refl, refl)
    by_method-Kept_or_Ended h cancel q = inl (refl, refl, refl)
    by_method-Kept_or_Ended h options q = inl (refl, refl, refl)
    by_method-Kept_or_Ended h (other_method x) q = inl (refl, refl, refl)

    -- A response is only looked at.
    unhandled-same : (h : CallHandler t) (o : Outcome Method) → (unhandled r t o h).0 ≡ h
    unhandled-same h (ok m) = refl
    unhandled-same h (err e) = refl
    unhandled-same h panic = refl

    response_cseq-same : (h : CallHandler t) (o : Option Text) → (response_cseq r t o h).0 ≡ h
    response_cseq-same h none = refl
    response_cseq-same h (some c) = unhandled-same h (ok_or (r.cseq_method c) bad_header)

    on_sip-Kept_or_Ended :
        (h : CallHandler t) (m : Option SipMessage)
        → let h' = (on_sip r t h m).0 in Kept h h' ⊎ Ended h h'
    unfolding handle_sip_message handle_sip_request handle_sip_response
    on_sip-Kept_or_Ended h none = inl (refl, refl, refl)
    on_sip-Kept_or_Ended h (some (request q)) = by_method-Kept_or_Ended h q.method q
    on_sip-Kept_or_Ended h (some (response res)) =
        let e = response_cseq-same h (r.find_header cseq res.headers) in
        inl (ap (messages r t) e, ap told e, ap (λ (d : CallHandler t). d.is_terminated) e)

    on_control-Kept_or_Ended :
        (h : CallHandler t) (c : Option CallControl) (uuid : Text)
        → let h' = (on_control r t h c uuid).0 in Kept h h' ⊎ Ended h h'
    unfolding handle_call_message
    on_control-Kept_or_Ended h none uuid = inl (refl, refl, refl)
    on_control-Kept_or_Ended h (some CallControl.hangup) uuid = hangup-Kept_or_Ended h uuid
    on_control-Kept_or_Ended h (some audio_out_empty) uuid = inl (refl, refl, refl)
    on_control-Kept_or_Ended h (some finished) uuid = inl (refl, refl, refl)

    pub handle_next-Kept_or_Ended :
        (h : CallHandler t) (ready : Ready) (uuid : Text)
        → let h' = (handle_next r t h ready uuid).0 in Kept h h' ⊎ Ended h h'
    unfolding handle_next Utils.recv Runtime.recv
    handle_next-Kept_or_Ended h ready uuid = elim (Bool-cases (one_sided r t h)) [
      | inl closed ↦ rw closed (hangup-Kept_or_Ended h uuid)
      | inr open' ↦ rw open' (by_ready ready)
    ]
      where
        by_ready : (x : Ready) → let h' = (select r t h x uuid).0 in Kept h h' ⊎ Ended h h'
        by_ready control_ready =
            let (c, m) = Utils.recv t.control_tx t.control_rx h.call_channel in
            on_control-Kept_or_Ended (record h { call_channel = c }) m uuid
        by_ready sip_ready =
            let (c, m) = Runtime.recv t h.connection in
            on_sip-Kept_or_Ended (record h { connection = c }) m
