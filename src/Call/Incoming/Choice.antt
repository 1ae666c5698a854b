-- ===== src/Call/Incoming/Choice.antt =====
-- What the user's choice comes to in src/call/incoming_call.rs, whatever the peer has sent before it.
use simple_sip_rs.Prelude.{
  ℕ, ◌<◌, ◌≡◌, refl, ◌⊎◌, inl, inr, true, List, [], ◌∷◌, ◌++◌, some, length, Text, ok, err,
  send_failed, Bool-cases, if◌then◌else◌, ap, sym, ◌∙◌, length-append, arith,
}
use simple_sip_rs.Channels.{IsSender, IsReceiver}
use simple_sip_rs.Sip.{
  Rsip, IsRsip, HeaderKind, Method, StatusCode, status_ok, busy_everywhere, v2, via, cseq,
  content_length, Request, Response, SipMessage, request, response,
}
use simple_sip_rs.Sdp.{WebrtcSdp}
use simple_sip_rs.Call.Session.{SessionParameters}
use simple_sip_rs.Call.Dialog.{response_headers}
use simple_sip_rs.Call.Dialog.Parties.{response_parties}
use simple_sip_rs.Call.Runtime.{Runtime, send_message}
use simple_sip_rs.Call.Incoming.{
  started, cancelled, IncomingCall, is_cancel, generate_response, send, with_sdp, accept, reject,
}
use simple_sip_rs.Call.Incoming.Search.{
  AllOther, queued, messages, at, get_cancel-found, get_cancel-none,
}

module _ (r : Rsip) (t : Runtime) (w : WebrtcSdp) where
  -- The response that is sent, and what a send of it comes to.
  abbrev pub reply : StatusCode → SessionParameters → Text → Text → Response
  reply code s v n = record {
    status_code = code;
    version = v2;
    headers = response_headers r s v n;
    body = [];
  }

  pub reply_lem :
      (c : IncomingCall t) (q : Request) (code : StatusCode) (v : Text) (n : ℕ) (m : Method)
      → IsRsip r
      → r.find_header via q.headers ≡ some v
      → r.find_header cseq q.headers ≡ some (r.cseq_text n m)
      → generate_response r t w c q code ≡ ok (reply code c.call_session_params v (r.cseq_text n m))
  unfolding generate_response
  reply_lem c q code v n m laws hv hc =
      rw (response_parties laws c.call_session_params q v n m hv hc).0

  -- With enough fuel, where the call's channel holds a CANCEL with a Via and a well-formed CSeq,
  -- behind anything that is not a CANCEL, accepting the call answers that CANCEL with one 200
  -- response and starts no call; if the response cannot be sent nothing is, and the error is
  -- returned.
  pub accept_cancelled :
      (fuel : ℕ) (c : IncomingCall t) (skipped rest : List SipMessage) (q : Request) (v : Text)
      (n : ℕ) (m : Method)
      → IsRsip r
      → IsSender t.message_tx
      → IsReceiver t.message_rx
      → queued r t w c ≡ skipped ++ request q ∷ rest
      → AllOther r t w skipped
      → is_cancel q.method ≡ true
      → length skipped < fuel
      → r.find_header via q.headers ≡ some v
      → r.find_header cseq q.headers ≡ some (r.cseq_text n m)
      → let (c', o) = accept r t w fuel c in
        let answer = reply status_ok c.call_session_params v (r.cseq_text n m) in
        ((o ≡ some (ok cancelled)) × (messages r t w c' ≡ messages r t w c ++ response answer ∷ []))
        ⊎ ((o ≡ some (err send_failed)) × (messages r t w c' ≡ messages r t w c))
  unfolding accept send_message
  accept_cancelled fuel c skipped rest q v n m laws tx rx e o k l hv hc =
      let answer = reply status_ok c.call_session_params v (r.cseq_text n m) in
      let (state, found, left) = get_cancel-found r t w fuel c skipped rest q rx e o k l in
      rw (found, reply_lem (at r t w c state) q status_ok v n m laws hv hc)
        (elim (Bool-cases (t.message_tx.send c.call_connection.sender (response answer)).1) [
          | inl done ↦ rw done (inl (refl, tx.send_ok _ (response answer) done))
          | inr lost ↦ rw lost (inr (refl, tx.send_failed _ (response answer) lost))
        ])

  -- With enough fuel and no CANCEL in the call's channel, accepting an invitation with a Via and
  -- a well-formed CSeq sends one 200 response whose body is the local session description and
  -- whose Content-Length is that of the body, and starts the call with the parameters of its
  -- session; if the response cannot be sent nothing is, and the error is returned.
  pub accept_started :
      (fuel : ℕ) (c : IncomingCall t) (skipped : List SipMessage) (v : Text) (n : ℕ) (m : Method)
      → IsRsip r
      → IsSender t.message_tx
      → IsReceiver t.message_rx
      → queued r t w c ≡ skipped
      → AllOther r t w skipped
      → length skipped < fuel
      → r.find_header via c.request.headers ≡ some v
      → r.find_header cseq c.request.headers ≡ some (r.cseq_text n m)
      → let (c', o) = accept r t w fuel c in
        let answer =
          with_sdp r t w
            (w.to_text c.call_session_params.local.sdp)
            (reply status_ok c.call_session_params v (r.cseq_text n m)) in
        (r.find_header content_length answer.headers
          ≡ some (r.content_length_text (length answer.body)))
        × (((o ≡ some (ok (started c'.call_connection c.call_session_params)))
              × (messages r t w c' ≡ messages r t w c ++ response answer ∷ []))
            ⊎ ((o ≡ some (err send_failed)) × (messages r t w c' ≡ messages r t w c)))
  unfolding accept send_message
  accept_started fuel c skipped v n m laws tx rx e o l hv hc =
      let answer =
        with_sdp r t w (w.to_text c.call_session_params.local.sdp)
          (reply status_ok c.call_session_params v (r.cseq_text n m)) in
      let (state, found) = get_cancel-none r t w fuel c skipped rx e o l in
      (
        simp laws.find-unique_push,
        rw (found, reply_lem (at r t w c state) c.request status_ok v n m laws hv hc)
            (elim (Bool-cases (t.message_tx.send c.call_connection.sender (response answer)).1) [
              | inl done ↦ rw done (inl (refl, tx.send_ok _ (response answer) done))
              | inr lost ↦ rw lost (inr (refl, tx.send_failed _ (response answer) lost))
            ]),
      )

  -- The request that a rejection answers, and the status: the first CANCEL in the channel with
  -- 200, or else the invitation with 600.
  abbrev answered : List SipMessage → Request → Request × StatusCode
  answered [] q = (q, busy_everywhere)
  answered (response _ ∷ ms) q = answered ms q
  answered (request k ∷ ms) q =
      let later = answered ms q in if is_cancel k.method then (k, status_ok) else later

  cancel_cases :
      (ms : List SipMessage) (q : Request)
      → (AllOther r t w ms × (answered ms q ≡ (q, busy_everywhere)))
        ⊎ ((skipped : List SipMessage) × (k : Request) × (rest : List SipMessage) × (ms
              ≡ skipped ++ request k ∷ rest)
            × AllOther r t w skipped
            × (is_cancel k.method ≡ true)
            × (answered ms q ≡ (k, status_ok)))
  cancel_cases [] q = inl (tt, refl)
  cancel_cases (response res ∷ ms) q = elim (cancel_cases ms q) [
    | inl (o, e) ↦ inl ((tt, o), e)
    | inr (skipped, k, rest, e, o, is_k, a) ↦
        inr (response res ∷ skipped, k, rest, ap (λ l. response res ∷ l) e, (tt, o), is_k, a)
  ]
  cancel_cases (request p ∷ ms) q = elim (Bool-cases (is_cancel p.method)) [
    | inl is_p ↦ inr ([], p, ms, refl, tt, is_p, rw is_p)
    | inr not_p ↦ elim (cancel_cases ms q) [
      | inl (o, e) ↦ inl ((not_p, o), rw not_p e)
      | inr (skipped, k, rest, e, o, is_k, a) ↦
          inr
            (request p ∷ skipped, k, rest, ap (λ l. request p ∷ l) e, (not_p, o), is_k, rw not_p a)
    ]
  ]

  has :
      (k : HeaderKind) {x y : Request × StatusCode} {v : Text}
      → x ≡ y
      → r.find_header k x.0.headers ≡ some v
      → r.find_header k y.0.headers ≡ some v
  has k e h = ap (λ (x : Request × StatusCode). r.find_header k x.0.headers) (sym e) ∙ h

  -- A rejection that comes to a reply to `q`.
  rejected :
      (c : IncomingCall t) (state : t.message_rx.State) (q : Request) (code : StatusCode) (v : Text)
      (n : ℕ) (m : Method)
      → IsRsip r
      → IsSender t.message_tx
      → r.find_header via q.headers ≡ some v
      → r.find_header cseq q.headers ≡ some (r.cseq_text n m)
      → let (c', o) =
          send r t w (at r t w c state) (generate_response r t w (at r t w c state) q code) in
        let answer = reply code c.call_session_params v (r.cseq_text n m) in
        ((some o ≡ some (ok tt)) × (messages r t w c' ≡ messages r t w c ++ response answer ∷ []))
        ⊎ ((some o ≡ some (err send_failed)) × (messages r t w c' ≡ messages r t w c))
  unfolding send_message
  rejected c state q code v n m laws tx hv hc =
      let answer = reply code c.call_session_params v (r.cseq_text n m) in
      rw (reply_lem (at r t w c state) q code v n m laws hv hc)
        (elim (Bool-cases (t.message_tx.send c.call_connection.sender (response answer)).1) [
          | inl done ↦ rw done (inl (refl, tx.send_ok _ (response answer) done))
          | inr lost ↦ rw lost (inr (refl, tx.send_failed _ (response answer) lost))
        ])

  -- With fuel for all that the call's channel holds, rejecting a call answers the first CANCEL in
  -- the channel with one 200 response, and where there is none the invitation with one 600
  -- response, under the Via and the CSeq of the request that is answered; if the response cannot
  -- be sent nothing is, and the error is returned. It assumes that this request has a Via and a
  -- well-formed CSeq, and the laws of the SIP library and of the channels.
  pub reject_outcome :
      (fuel : ℕ) (c : IncomingCall t) (v : Text) (n : ℕ) (m : Method)
      → IsRsip r
      → IsSender t.message_tx
      → IsReceiver t.message_rx
      → length (queued r t w c) < fuel
      → r.find_header via (answered (queued r t w c) c.request).0.headers ≡ some v
      → r.find_header cseq (answered (queued r t w c) c.request).0.headers ≡ some (r.cseq_text n m)
      → let (c', o) = reject r t w fuel c in
        let answer =
          reply (answered (queued r t w c) c.request).1 c.call_session_params v (r.cseq_text n m) in
        ((o ≡ some (ok tt)) × (messages r t w c' ≡ messages r t w c ++ response answer ∷ []))
        ⊎ ((o ≡ some (err send_failed)) × (messages r t w c' ≡ messages r t w c))
  unfolding reject
  reject_outcome fuel c v n m laws tx rx l hv hc = elim (cancel_cases (queued r t w c) c.request) [
    | inl (o, a) ↦
        let (state, found) = get_cancel-none r t w fuel c (queued r t w c) rx refl o l in
        rw (a, found)
          (rejected c state c.request busy_everywhere v n m laws tx (has via a hv) (has cseq a hc))
    | inr (skipped, k, rest, e, o, is_k, a) ↦
        let short : length skipped < fuel =
          let q = ap length e in let j = length-append skipped (request k ∷ rest) in ground arith in
        let (state, found, left) = get_cancel-found r t w fuel c skipped rest k rx e o is_k short in
        rw (a, found) (rejected c state k status_ok v n m laws tx (has via a hv) (has cseq a hc))
  ]
