-- ===== src/Call/Handler.antt =====
-- src/call/call_handler.rs: the task that runs an answered call. Every method returns the new handler
-- and its outcome. The branch of a `Via` is random: an argument.
pub mod Ending
pub mod Closing
pub mod Once
pub mod Rounds
pub mod Farewell
use simple_sip_rs.Prelude.{
  ℕ, Bool, true, false, not, ◌&&◌, List, [], ◌∷◌, Option, none, some, Text, Outcome, ok, err, panic,
  Error, bad_header, ok_or, ◌>>=◌, if◌then◌else◌,
}
use simple_sip_rs.Sip.{
  Rsip, Method, bye, status_ok, cseq, Header, Headers, Request, Response, SipMessage, request,
  response,
}
use simple_sip_rs.Utils
use simple_sip_rs.Utils.{Channel}
use simple_sip_rs.Call.Session.{SessionParameters}
use simple_sip_rs.Call.Dialog.{get_headers_request, get_headers_response, get_next_cseq}
use simple_sip_rs.Call.Runtime
use simple_sip_rs.Call.Runtime.{Runtime, CallConnection, CallControl, send_message}

-- Which branch of `select!` is taken.
pub data Ready : Type 0 where
  control_ready sip_ready : Ready

module _ (t : Runtime) where
  pub record CallHandler : Type 0 where
    pub is_terminated : Bool
    pub session_params : SessionParameters
    pub call_channel : Channel t.control_tx t.control_rx
    pub connection : CallConnection t

module _ (r : Rsip) (t : Runtime) where
  abbrev Step : Type 0
  Step = CallHandler t × Outcome (Unit {0})

  abbrev pub new :
      Channel t.control_tx t.control_rx → CallConnection t → SessionParameters → CallHandler t
  new call_channel connection session_params = record {
    is_terminated = false;
    session_params = session_params;
    call_channel = call_channel;
    connection = connection;
  }

  abbrev pub one_sided : CallHandler t → Bool
  one_sided h = Utils.one_sided t.control_tx t.control_rx h.call_channel

  unfoldable pub is_running : CallHandler t → Bool
  is_running h = not (one_sided h) && not h.is_terminated

  unfoldable pub notify_call_hangup : CallHandler t → CallHandler t
  notify_call_hangup h = record h {
    call_channel =
        (Utils.send t.control_tx t.control_rx h.call_channel Runtime.CallControl.hangup).0;
    is_terminated = true;
  }

  -- The `BYE` of a session whose sequence number has been counted up to `n`.
  unfoldable pub bye_request : SessionParameters → Text → ℕ → Request
  bye_request s uuid n = record {
    method = bye;
    uri = s.remote.uri;
    version = r.version_default;
    headers =
        r.unique_push (record { kind = cseq; value = r.cseq_text n bye })
          (get_headers_request r s uuid);
    body = [];
  }

  -- After a send whose error `?` passes on.
  abbrev pub notify_if_sent : CallHandler t × Outcome (Unit {0}) → Step
  notify_if_sent (h, ok _) = (notify_call_hangup h, ok tt)
  notify_if_sent (h, err e) = (h, err e)
  notify_if_sent (h, panic) = (h, panic)

  abbrev pub send : CallHandler t → SipMessage → CallHandler t × Outcome (Unit {0})
  send h m = let (c, done) = send_message t h.connection m in (record h { connection = c }, done)

  unfoldable pub hangup : CallHandler t → Text → Step
  hangup h uuid =
      let (s, n) = get_next_cseq h.session_params in
      notify_if_sent
        (send (record h { session_params = s }) (request (bye_request h.session_params uuid n)))

  abbrev pub unhandled : Outcome Method → CallHandler t → Step
  unhandled (ok _) h = (h, ok tt)
  unhandled (err e) h = (h, err e)
  unhandled panic h = (h, panic)

  abbrev pub response_cseq : Option Text → CallHandler t → Step
  response_cseq none h = (h, ok tt)
  response_cseq (some c) h = unhandled (ok_or (r.cseq_method c) bad_header) h

  -- A response is only looked at: its method must be readable.
  unfoldable pub handle_sip_response : CallHandler t → Response → Step
  handle_sip_response h res = response_cseq (r.find_header cseq res.headers) h

  -- The error of the send is returned, but the call is over either way.
  abbrev pub answer_bye : CallHandler t → Outcome Headers → Step
  answer_bye h (ok headers) =
      let (h', res) = send h (
        response (record {
          status_code = status_ok;
          version = r.version_default;
          headers = headers;
          body = [];
        })) in
      (notify_call_hangup h', res)
  answer_bye h (err e) = (h, err e)
  answer_bye h panic = (h, panic)

  unfoldable pub handle_bye_request : CallHandler t → Request → Step
  handle_bye_request h q = answer_bye h (get_headers_response r h.session_params q)

  abbrev pub by_method : Method → CallHandler t → Request → Step
  by_method bye h q = handle_bye_request h q
  by_method _ h q = (h, ok tt)

  unfoldable pub handle_sip_request : CallHandler t → Request → Step
  handle_sip_request h q = by_method q.method h q

  unfoldable pub handle_sip_message : CallHandler t → SipMessage → Step
  handle_sip_message h (request q) = handle_sip_request h q
  handle_sip_message h (response res) = handle_sip_response h res

  unfoldable pub handle_call_message : CallHandler t → CallControl → Text → Step
  handle_call_message h CallControl.hangup uuid = hangup h uuid
  handle_call_message h _ uuid = (h, ok tt)

  abbrev pub on_control : CallHandler t → Option CallControl → Text → Step
  on_control h none uuid = (h, ok tt)
  on_control h (some c) uuid = handle_call_message h c uuid

  abbrev pub on_sip : CallHandler t → Option SipMessage → Step
  on_sip h none = (h, ok tt)
  on_sip h (some m) = handle_sip_message h m

  abbrev pub select : CallHandler t → Ready → Text → Step
  select h control_ready uuid =
      let (c, m) = Utils.recv t.control_tx t.control_rx h.call_channel in
      on_control (record h { call_channel = c }) m uuid
  select h sip_ready uuid =
      let (c, m) = Runtime.recv t h.connection in on_sip (record h { connection = c }) m

  unfoldable pub handle_next : CallHandler t → Ready → Text → Step
  handle_next h ready uuid = if one_sided h then hangup h uuid else select h ready uuid

  -- `drop`
  unfoldable pub drop : CallHandler t → CallHandler t
  drop h = record h {
    call_channel = (Utils.send t.control_tx t.control_rx h.call_channel CallControl.finished).0;
  }

  -- The loop of `call_task` over a schedule of what is ready; it goes on after an error, ends when
  -- the handler no longer runs, and a panic ends the task.
  unfoldable pub run : CallHandler t → List (Ready × Text) → CallHandler t
  run h [] = h
  run h ((ready, uuid) ∷ later) =
      let (h', res) = handle_next h ready uuid in
      let rest = run h' later in if is_running h then (elim res [ panic ↦ h' | _ ↦ rest ]) else h

  unfoldable pub call_task : CallHandler t → List (Ready × Text) → CallHandler t
  unfolding run drop
  call_task h schedule = drop (run h schedule)
