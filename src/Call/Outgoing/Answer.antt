-- ===== src/Call/Outgoing/Answer.antt =====
-- src/call/outgoing_call.rs: how the responses to an `INVITE` are taken.
use simple_sip_rs.Prelude.{
  ℕ, zero, suc, ◌+◌, [], Option, none, some, Text, Outcome, ok, err, panic, ok_or, missing_header,
  bad_header, unexpected_response, channel_closed, no_response, ◌>>=◌, if◌then◌else◌,
}
use simple_sip_rs.Prelude.Word.{u32}
use simple_sip_rs.Sip
use simple_sip_rs.Sip.{
  Rsip, Method, invite, ack, StatusCode, status_ok, trying, ringing, session_progress, unauthorized,
  busy_here, busy_everywhere, service_unavailable, temporarily_unavailable, Challenge, Headers,
  Request, Response, SipMessage, request, response,
}
use simple_sip_rs.Sdp.{WebrtcSdp}
use simple_sip_rs.SipProto.Register.{Digest, add_auth_header}
use simple_sip_rs.Call.Session.{SessionParameters, header_of, from_response, cseq_of}
use simple_sip_rs.Call.Dialog.{get_headers_request}
use simple_sip_rs.Call.Runtime
use simple_sip_rs.Call.Runtime.{Runtime, CallConnection, send_message}
use simple_sip_rs.Call.Outgoing.{
  PeekOutgoingCallResponse, accepted, rejected, OutgoingCallResponse, started, refused,
  OutgoingCall, is_ok, is_invite, generate_invite, send,
}

module _ (r : Rsip) (t : Runtime) (w : WebrtcSdp) (d : Digest) where
  abbrev pub Step : Type 0
  Step = OutgoingCall t × Outcome (Unit {0})

  -- The challenge of a 401 response: no header and a malformed one are errors.
  abbrev pub challenge_of : Headers → Outcome Challenge
  challenge_of hs = do
    c ← ok_or (r.find_header Sip.www_authenticate hs) missing_header
    ok_or (r.challenge_typed c) bad_header

  abbrev pub send_authorized : OutgoingCall t → Outcome SipMessage → Step
  send_authorized c (ok m) = send r t w c m
  send_authorized c (err e) = (c, err e)
  send_authorized c panic = (c, panic)

  abbrev pub authorize : OutgoingCall t → Outcome Challenge → Step
  authorize c (ok challenge) =
      let c' = record c { cseq = u32 (c.cseq + 1) } in
      send_authorized c' (
        add_auth_header r d (request (generate_invite r t w c'))
          (record { config = c.config; realm = challenge.realm; nonce = challenge.nonce }))
  authorize c (err e) = (c, err e)
  authorize c panic = (c, panic)

  unfoldable pub handle_invite_response_unauthorized : OutgoingCall t → Response → Step
  handle_invite_response_unauthorized c res = authorize c (challenge_of res.headers)

  -- The `match` on the status code.
  unfoldable pub by_status : StatusCode → OutgoingCall t → Response → Step
  by_status trying c res = (c, ok tt)
  by_status ringing c res = (c, ok tt)
  by_status busy_here c res = (record c { response = some res }, ok tt)
  by_status busy_everywhere c res = (record c { response = some res }, ok tt)
  by_status service_unavailable c res = (record c { response = some res }, ok tt)
  by_status temporarily_unavailable c res = (record c { response = some res }, ok tt)
  by_status status_ok c res = (record c { response = some res }, ok tt)
  by_status session_progress c res = (c, ok tt)
  by_status unauthorized c res = handle_invite_response_unauthorized c res
  by_status (Sip.other_status n) c res = (c, ok tt)

  abbrev pub method_of : Headers → Outcome Method
  method_of hs = do c ← header_of r Sip.cseq hs; ok_or (r.cseq_method c) bad_header

  abbrev by_method : Outcome Method → OutgoingCall t → Response → Step
  by_method (ok m) c res =
      if is_invite m then by_status res.status_code c res else (c, err unexpected_response)
  by_method (err e) c res = (c, err e)
  by_method panic c res = (c, panic)

  unfoldable pub handle_response : OutgoingCall t → Response → Step
  handle_response c res = by_method (method_of res.headers) c res

  -- The end of a round of the loop: `none` goes on.
  abbrev pub answer_of : Option Response → Option PeekOutgoingCallResponse
  answer_of none = none
  answer_of (some res) = some (if is_ok res.status_code then accepted else rejected res.status_code)

  abbrev Peek : Type 0
  Peek = OutgoingCall t × Option (Outcome PeekOutgoingCallResponse)

  abbrev finish : Option PeekOutgoingCallResponse → OutgoingCall t → Peek → Peek
  finish none c later = later
  finish (some a) c later = (c, some (ok a))

  abbrev after_response : Step → (OutgoingCall t → Peek) → Peek
  after_response (c, ok _) again = finish (answer_of c.response) c (again c)
  after_response (c, err e) again = (c, some (err e))
  after_response (c, panic) again = (c, some panic)

  abbrev pub receive : OutgoingCall t × Option SipMessage → (OutgoingCall t → Peek) → Peek
  receive (c, none) again = (c, some (err channel_closed))
  receive (c, some (request q)) again = again c
  receive (c, some (response res)) again = after_response (handle_response c res) again

  abbrev pub take_message : OutgoingCall t → OutgoingCall t × Option SipMessage
  take_message c =
      let (connection, m) = Runtime.recv t c.call_connection in
      (record c { call_connection = connection }, m)

  -- The loop of `peek_call_response`; `none` means that the fuel ran out.
  unfoldable pub peek_call_response : ℕ → OutgoingCall t → Peek
  peek_call_response zero c = (c, none)
  peek_call_response (suc fuel) c = receive (take_message c) (λ c'. peek_call_response fuel c')

  abbrev pub ack_request : SessionParameters → Text → ℕ → Request
  ack_request s uuid n = record {
    method = ack;
    uri = s.remote.uri;
    version = r.version_default;
    headers =
        r.unique_push (record { kind = Sip.cseq; value = r.cseq_text n ack })
          (get_headers_request r s uuid);
    body = [];
  }

  abbrev pub start :
      SessionParameters
      → CallConnection t × Outcome (Unit {0})
      → CallConnection t × Outcome (OutgoingCallResponse t)
  start s (connection, ok _) = (connection, ok (started connection s))
  start s (connection, err e) = (connection, err e)
  start s (connection, panic) = (connection, panic)

  abbrev acknowledge :
      OutgoingCall t
      → Text
      → Outcome (SessionParameters × ℕ)
      → CallConnection t × Outcome (OutgoingCallResponse t)
  acknowledge c uuid (ok (s, n)) =
      start s (send_message t c.call_connection (request (ack_request s uuid n)))
  acknowledge c uuid (err e) = (c.call_connection, err e)
  acknowledge c uuid panic = (c.call_connection, panic)

  unfoldable pub get_outgoing_call_response :
      OutgoingCall t → Response → Text → CallConnection t × Outcome (OutgoingCallResponse t)
  get_outgoing_call_response c res uuid =
      if is_ok res.status_code
      then acknowledge c uuid (do
        s ← from_response r w res c.call_id c.local_call_session_params c.config
        n ← cseq_of r res.headers
        ok (s, n))
      else (c.call_connection, ok (refused res.status_code))

  abbrev respond :
      OutgoingCall t → Text → Option Response → CallConnection t × Outcome (OutgoingCallResponse t)
  respond c uuid none = (c.call_connection, err no_response)
  respond c uuid (some res) = get_outgoing_call_response (record c { response = none }) res uuid

  abbrev after_peek : Text → Peek → CallConnection t × Option (Outcome (OutgoingCallResponse t))
  after_peek uuid (c, none) = (c.call_connection, none)
  after_peek uuid (c, some (ok _)) =
      let (connection, o) = respond c uuid c.response in (connection, some o)
  after_peek uuid (c, some (err e)) = (c.call_connection, some (err e))
  after_peek uuid (c, some panic) = (c.call_connection, some panic)

  abbrev respond_or_peek :
      ℕ
      → OutgoingCall t
      → Text
      → Option Response
      → CallConnection t × Option (Outcome (OutgoingCallResponse t))
  respond_or_peek fuel c uuid none = after_peek uuid (peek_call_response fuel c)
  respond_or_peek fuel c uuid (some res) =
      let (connection, o) = get_outgoing_call_response (record c { response = none }) res uuid in
      (connection, some o)

  -- Consumes the call; `none` means that the fuel of the wait ran out.
  unfoldable pub into_call_response :
      ℕ → OutgoingCall t → Text → CallConnection t × Option (Outcome (OutgoingCallResponse t))
  into_call_response fuel c uuid = respond_or_peek fuel c uuid c.response
