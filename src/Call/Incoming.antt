-- ===== src/Call/Incoming.antt =====
-- src/call/incoming_call.rs: a call that a peer has offered and that the user accepts or rejects.
pub mod Search
pub mod Choice
use simple_sip_rs.Prelude.{
  ℕ, zero, suc, Bool, true, false, List, [], ◌∷◌, Option, none, some, length, Text, Outcome, ok,
  err, panic, if◌then◌else◌,
}
use simple_sip_rs.Context.{SipContext}
use simple_sip_rs.Sip
use simple_sip_rs.Sip.{
  Rsip, Method, cancel, StatusCode, status_ok, ringing, busy_everywhere, v2, Uri, Headers, Request,
  Response, SipMessage, request, response,
}
use simple_sip_rs.Sdp.{WebrtcSdp}
use simple_sip_rs.Media.Features.{Features}
use simple_sip_rs.Call.Session.{SessionParameters, from_request}
use simple_sip_rs.Call.Dialog.{get_headers_response}
use simple_sip_rs.Call.Runtime
use simple_sip_rs.Call.Runtime.{Runtime, CallConnection, send_message}

module _ (t : Runtime) where
  -- An accepted call is given by what `Call::new` starts it with.
  pub data IncomingCallResult : Type 0 where
    started : CallConnection t → SessionParameters → IncomingCallResult
    cancelled : IncomingCallResult

  pub record IncomingCall : Type 0 where
    pub call_connection : CallConnection t
    pub call_session_params : SessionParameters
    pub request : Request

  unfoldable pub get_remote_uri : IncomingCall → Uri
  get_remote_uri c = c.call_session_params.remote.uri

abbrev pub is_cancel : Method → Bool
is_cancel cancel = true
is_cancel _ = false

module _ (r : Rsip) (t : Runtime) (w : WebrtcSdp) where
  abbrev response_of : StatusCode → Outcome Headers → Outcome Response
  response_of code (ok headers) =
      ok (record { status_code = code; version = v2; headers = headers; body = [] })
  response_of _ (err e) = err e
  response_of _ panic = panic

  -- Panics where `get_headers_response` does.
  unfoldable pub generate_response : IncomingCall t → Request → StatusCode → Outcome Response
  generate_response c q status = response_of status (get_headers_response r c.call_session_params q)

  abbrev pub Step : Type 0
  Step = IncomingCall t × Outcome (Unit {0})

  abbrev pub send : IncomingCall t → Outcome Response → Step
  send c (ok res) =
      let (connection, done) = send_message t c.call_connection (response res) in
      (record c { call_connection = connection }, done)
  send c (err e) = (c, err e)
  send c panic = (c, panic)

  unfoldable pub send_ringing : IncomingCall t → Step
  send_ringing c = send c (generate_response c c.request ringing)

  abbrev pub Search : Type 0
  Search = IncomingCall t × Option (Option Request)

  -- The end of a round of the loop: only a `CANCEL`, an empty channel and a closed one end it.
  abbrev pub seek :
      IncomingCall t × Outcome (Option SipMessage) → (IncomingCall t → Search) → Search
  seek (c, ok none) again = (c, some none)
  seek (c, ok (some (request q))) again =
      let later = again c in if is_cancel q.method then (c, some (some q)) else later
  seek (c, ok (some (response res))) again = again c
  seek (c, err e) again = (c, some none)
  seek (c, panic) again = (c, some none)

  abbrev pub try_message : IncomingCall t → IncomingCall t × Outcome (Option SipMessage)
  try_message c =
      let (connection, m) = Runtime.try_recv t c.call_connection in
      (record c { call_connection = connection }, m)

  -- The outer `none` means that the fuel ran out.
  unfoldable pub get_cancel_request : ℕ → IncomingCall t → Search
  get_cancel_request zero c = (c, none)
  get_cancel_request (suc fuel) c = seek (try_message c) (λ c'. get_cancel_request fuel c')

  -- The response with the session description as its body.
  abbrev pub with_sdp : Text → Response → Response
  with_sdp body res =
      let h1 =
        r.unique_push (record { kind = Sip.content_type; value = r.sdp_content_type })
          res.headers in
      let h2 =
        r.unique_push
          (record { kind = Sip.content_length; value = r.content_length_text (length body) }) h1 in
      record res { headers = h2; body = body }

  abbrev described : IncomingCall t → Outcome Response → Outcome Response
  described c (ok res) = ok (with_sdp (w.to_text c.call_session_params.local.sdp) res)
  described c (err e) = err e
  described c panic = panic

  abbrev Accepted : Type 0
  Accepted = IncomingCall t × Option (Outcome (IncomingCallResult t))

  abbrev closing : Step → Accepted
  closing (c, ok _) = (c, some (ok cancelled))
  closing (c, err e) = (c, some (err e))
  closing (c, panic) = (c, some panic)

  abbrev starting : Step → Accepted
  starting (c, ok _) = (c, some (ok (started c.call_connection c.call_session_params)))
  starting (c, err e) = (c, some (err e))
  starting (c, panic) = (c, some panic)

  abbrev accept_after : Search → Accepted
  accept_after (c, none) = (c, none)
  accept_after (c, some (some q)) = closing (send c (generate_response c q status_ok))
  accept_after (c, some none) =
      starting (send c (described c (generate_response c c.request status_ok)))

  -- Consumes the call; `none` means that the fuel of the search ran out.
  unfoldable pub accept : ℕ → IncomingCall t → Accepted
  accept fuel c = accept_after (get_cancel_request fuel c)

  abbrev Rejected : Type 0
  Rejected = IncomingCall t × Option (Outcome (Unit {0}))

  abbrev done : Step → Rejected
  done (c, res) = (c, some res)

  abbrev reject_after : Search → Rejected
  reject_after (c, none) = (c, none)
  reject_after (c, some (some q)) = done (send c (generate_response c q status_ok))
  reject_after (c, some none) = done (send c (generate_response c c.request busy_everywhere))

  unfoldable pub reject : ℕ → IncomingCall t → Rejected
  reject fuel c = reject_after (get_cancel_request fuel c)

  abbrev Offered : Type 0
  Offered = SipContext × CallConnection t × Outcome (IncomingCall t)

  abbrev pub rung : SipContext → Step → Offered
  rung context (c, ok _) = (context, c.call_connection, ok c)
  rung context (c, err e) = (context, c.call_connection, err e)
  rung context (c, panic) = (context, c.call_connection, panic)

  abbrev pub offered : CallConnection t → Request → SipContext × Outcome SessionParameters → Offered
  offered connection q (context, ok params) = rung context (
      send_ringing
        (record { call_connection = connection; call_session_params = params; request = q }))
  offered connection q (context, err e) = (context, connection, err e)
  offered connection q (context, panic) = (context, connection, panic)

  -- The context, the connection as it is left, and the call.
  unfoldable pub try_from_request :
      Features → SipContext → Request → CallConnection t → Text → Offered
  try_from_request features context q connection uuid =
      offered connection q (from_request r w features context q uuid)
