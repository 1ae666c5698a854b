-- ===== src/Tests/Calls.antt =====
-- Calls over the concrete channels.
use simple_sip_rs.Prelude.{
  ◌≡◌, refl, ◌⊎◌, true, false, List, [], ◌∷◌, ◌++◌, none, some, codes, ok, err, send_failed, arith,
}
use simple_sip_rs.Sip
use simple_sip_rs.Sip.{
  Method, invite, cancel, bye, v2, Header, Request, Response, SipMessage, request, response,
  ringing, busy_here, other_status,
}
use simple_sip_rs.Call.Session.{find_map, SessionParameters, LocalSessionParameters}
use simple_sip_rs.Call.Dialog.{response_headers}
use simple_sip_rs.Call.Handler.{CallHandler, bye_request, hangup, handle_sip_message}
use simple_sip_rs.Call.Handler.Ending.{messages, ok_response, IsByeOf, hangup_outcome, bye_outcome}
use simple_sip_rs.Call.Outgoing.{OutgoingCall, rejected, generate_invite, generate_cancel}
use simple_sip_rs.Call.Outgoing.Answer.{peek_call_response}
use simple_sip_rs.Call.Outgoing.Waiting.{peek_answered}
use simple_sip_rs.Call.Outgoing.Requests as Sent
use simple_sip_rs.Call.Outgoing.Requests.{cancel_matches_invite}
use simple_sip_rs.Tests.Library.{
  simple_rsip, simple_rsip-IsRsip, simple_sdp, digest, runtime, runtime-IsSender,
  runtime-IsReceiver, config, plain_uri, plain_sdp,
}

abbrev local_parameters : LocalSessionParameters
local_parameters = record { uri = plain_uri; tag = codes "tt1"; sdp = plain_sdp; port = 20480 }

abbrev pub session : SessionParameters
session = record {
  cseq = 7;
  call_id = codes "id";
  remote = record { uri = plain_uri; tag = codes "b"; sdp = plain_sdp };
  local = local_parameters;
  config = config;
}

abbrev pub handler : CallHandler runtime
handler = record {
  is_terminated = false;
  session_params = session;
  call_channel = record { sender = record { open_end = true; items = [] }; receiver = [] };
  connection = record { sender = record { open_end = true; items = [] }; receiver = [] };
}

abbrev pub with_method : Method → List Header → Request
with_method m hs = record { method = m; uri = plain_uri; version = v2; headers = hs; body = [] }

abbrev pub bye_headers : List Header
bye_headers =
    record { kind = Sip.via; value = 5 ∷ [] }
    ∷ record { kind = Sip.cseq; value = simple_rsip.cseq_text 9 bye }
    ∷ []

hangup_outcome_example :
    let (h', res) = hangup simple_rsip runtime handler [] in
    let q = bye_request simple_rsip runtime session [] 8 in
    (h'.session_params.cseq ≡ 8)
    × IsByeOf simple_rsip runtime session 8 q
    × (((res ≡ ok tt)
          × (h'.is_terminated ≡ true)
          × (messages simple_rsip runtime h'
              ≡ messages simple_rsip runtime handler ++ request q ∷ []))
        ⊎ ((res ≡ err send_failed)
            × (h'.is_terminated ≡ handler.is_terminated)
            × (messages simple_rsip runtime h' ≡ messages simple_rsip runtime handler)))
hangup_outcome_example =
    hangup_outcome simple_rsip runtime handler [] simple_rsip-IsRsip runtime-IsSender

bye_outcome_example :
    let (h', res) =
      handle_sip_message simple_rsip runtime handler (request (with_method bye bye_headers)) in
    let answer =
      ok_response simple_rsip runtime
        (response_headers simple_rsip session (5 ∷ []) (simple_rsip.cseq_text 9 bye)) in
    (h'.is_terminated ≡ true)
    × (h'.session_params ≡ session)
    × (((res ≡ ok tt)
          × (messages simple_rsip runtime h' ≡ messages simple_rsip runtime handler ++ answer ∷ []))
        ⊎ ((res ≡ err send_failed)
            × (messages simple_rsip runtime h' ≡ messages simple_rsip runtime handler)))
unfolding find_map
bye_outcome_example =
    bye_outcome simple_rsip runtime handler (with_method bye bye_headers) (5 ∷ []) 9 bye
      simple_rsip-IsRsip runtime-IsSender refl refl refl

abbrev ended : CallHandler runtime
ended = record handler { is_terminated = true }

abbrev pub res_of : Sip.StatusCode → Response
res_of status = record {
  status_code = status;
  version = v2;
  headers =
      record { kind = Sip.www_authenticate; value = codes "r" }
      ∷ record { kind = Sip.cseq; value = simple_rsip.cseq_text 1234 invite }
      ∷ [];
  body = [];
}

abbrev pub invited : List SipMessage → OutgoingCall runtime
invited inbox = record {
  call_connection = record { sender = record { open_end = true; items = [] }; receiver = inbox };
  call_id = codes "id";
  remote_uri = plain_uri;
  cseq = 1234;
  own_via = record { version = v2; transport = Sip.tcp; uri = plain_uri; params = [] };
  local_call_session_params = local_parameters;
  config = config;
  response = none;
}

abbrev ringing_then_busy : List SipMessage
ringing_then_busy = response (res_of ringing) ∷ response (res_of busy_here) ∷ []

peek_answered_example :
    let c = invited ringing_then_busy in
    let (c', o) = peek_call_response simple_rsip runtime simple_sdp digest 5 c in
    (o ≡ some (ok (rejected busy_here)))
    × (c'.response ≡ some (res_of busy_here))
    × (c'.call_connection.sender ≡ c.call_connection.sender)
    × (c'.cseq ≡ 1234)
unfolding find_map
peek_answered_example =
    peek_answered simple_rsip runtime simple_sdp digest 5 (invited ringing_then_busy)
      (response (res_of ringing) ∷ []) [] (res_of busy_here) runtime-IsReceiver refl
      ((refl, refl), tt) refl refl refl (omega arith)

abbrev not_found : List SipMessage
not_found = response (res_of (other_status 404)) ∷ []

cancel_matches_invite_example :
    let i = (generate_invite simple_rsip runtime simple_sdp (invited [])).headers in
    let k = (generate_cancel simple_rsip runtime simple_sdp (invited [])).headers in
    (find_map Sip.via k ≡ find_map Sip.via i)
    × (find_map Sip.call_id k ≡ find_map Sip.call_id i)
    × (find_map Sip.from k ≡ find_map Sip.from i)
    × (find_map Sip.to k ≡ find_map Sip.to i)
    × (find_map Sip.cseq i ≡ some (simple_rsip.cseq_text 1234 invite))
    × (find_map Sip.cseq k ≡ some (simple_rsip.cseq_text 1234 cancel))
cancel_matches_invite_example =
    cancel_matches_invite simple_rsip runtime simple_sdp (invited []) simple_rsip-IsRsip
