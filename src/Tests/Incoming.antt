-- ===== src/Tests/Incoming.antt =====
-- A call that is offered, and a request for options, over the concrete libraries.
use simple_sip_rs.Prelude.{
  ◌≡◌, refl, ◌⊎◌, List, [], ◌∷◌, ◌++◌, some, ok, err, send_failed, true, length, codes, arith,
}
use simple_sip_rs.Sip
use simple_sip_rs.Sip.{
  Method, invite, ack, cancel, options, v2, status_ok, busy_everywhere, Header, Via, Request,
  SipMessage, request, response,
}
use simple_sip_rs.Call.Session.{find_map, SessionParameters}
use simple_sip_rs.Call.Incoming.{IncomingCall, started, cancelled, accept, reject, with_sdp}
use simple_sip_rs.Call.Incoming.Search.{messages}
use simple_sip_rs.Call.Incoming.Choice.{reply, accept_cancelled, accept_started, reject_outcome}
use simple_sip_rs.SipProto.Options.{options_headers, options_response, generate_options_response}
use simple_sip_rs.SipProto.Options.Echo.{options_echo}
use simple_sip_rs.Tests.Library.{
  simple_rsip, simple_rsip-IsRsip, simple_sdp, runtime, runtime-IsSender, runtime-IsReceiver,
  config, plain_uri, plain_sdp,
}

abbrev session : SessionParameters
session = record {
  cseq = 7;
  call_id = codes "id";
  remote = record { uri = plain_uri; tag = codes "b"; sdp = plain_sdp };
  local = record { uri = plain_uri; tag = codes "tt1"; sdp = plain_sdp; port = 20480 };
  config = config;
}

abbrev pub of_method : Method → Request
of_method m = record {
  method = m;
  uri = plain_uri;
  version = v2;
  headers =
      record { kind = Sip.via; value = 5 ∷ [] }
      ∷ record { kind = Sip.cseq; value = simple_rsip.cseq_text 9 m }
      ∷ record { kind = Sip.to; value = codes "to" }
      ∷ record { kind = Sip.from; value = codes "from" }
      ∷ record { kind = Sip.call_id; value = codes "id" }
      ∷ [];
  body = [];
}

abbrev offer : List SipMessage → IncomingCall runtime
offer inbox = record {
  call_connection = record { sender = record { open_end = true; items = [] }; receiver = inbox };
  call_session_params = session;
  request = of_method invite;
}

abbrev acked : List SipMessage
acked = request (of_method ack) ∷ []

abbrev withdrawn : List SipMessage
withdrawn = request (of_method ack) ∷ request (of_method cancel) ∷ []

accept_cancelled_example :
    let (c', o) = accept simple_rsip runtime simple_sdp 4 (offer withdrawn) in
    let answer =
      reply simple_rsip runtime simple_sdp status_ok session
        (5 ∷ [])
        (simple_rsip.cseq_text 9 cancel) in
    ((o ≡ some (ok cancelled))
      × (messages simple_rsip runtime simple_sdp c' ≡ [] ++ response answer ∷ []))
    ⊎ ((o ≡ some (err send_failed)) × (messages simple_rsip runtime simple_sdp c' ≡ []))
unfolding find_map
accept_cancelled_example =
    accept_cancelled simple_rsip runtime simple_sdp 4 (offer withdrawn) acked [] (of_method cancel)
      (5 ∷ []) 9 cancel simple_rsip-IsRsip runtime-IsSender runtime-IsReceiver refl (refl, tt) refl
      (omega arith) refl refl

accept_started_example :
    let (c', o) = accept simple_rsip runtime simple_sdp 4 (offer acked) in
    let answer = with_sdp simple_rsip runtime simple_sdp (simple_sdp.to_text plain_sdp) (
      reply simple_rsip runtime simple_sdp status_ok session
        (5 ∷ [])
        (simple_rsip.cseq_text 9 invite)) in
    (simple_rsip.find_header Sip.content_length answer.headers
      ≡ some (simple_rsip.content_length_text (length answer.body)))
    × (((o ≡ some (ok (started c'.call_connection session)))
          × (messages simple_rsip runtime simple_sdp c' ≡ [] ++ response answer ∷ []))
        ⊎ ((o ≡ some (err send_failed)) × (messages simple_rsip runtime simple_sdp c' ≡ [])))
unfolding find_map
accept_started_example =
    accept_started simple_rsip runtime simple_sdp 4 (offer acked) acked (5 ∷ []) 9 invite
      simple_rsip-IsRsip runtime-IsSender runtime-IsReceiver refl (refl, tt) (omega arith) refl refl

reject_outcome_example :
    let (c', o) = reject simple_rsip runtime simple_sdp 4 (offer withdrawn) in
    let answer =
      reply simple_rsip runtime simple_sdp status_ok session
        (5 ∷ [])
        (simple_rsip.cseq_text 9 cancel) in
    ((o ≡ some (ok tt)) × (messages simple_rsip runtime simple_sdp c' ≡ [] ++ response answer ∷ []))
    ⊎ ((o ≡ some (err send_failed)) × (messages simple_rsip runtime simple_sdp c' ≡ []))
unfolding find_map
reject_outcome_example =
    reject_outcome simple_rsip runtime simple_sdp 4 (offer withdrawn) (5 ∷ []) 9 cancel
      simple_rsip-IsRsip runtime-IsSender runtime-IsReceiver (omega arith) refl refl

abbrev plain_via : Via
plain_via = record { version = v2; transport = Sip.tcp; uri = plain_uri; params = [] }

options_echo_example :
    let hs =
      options_headers simple_rsip config plain_via
        (codes "to")
        (codes "from")
        (codes "id")
        (simple_rsip.cseq_text 9 options) in
    (generate_options_response simple_rsip (of_method options) config
      ≡ ok (options_response simple_rsip hs))
    × (simple_rsip.find_header Sip.via hs ≡ some (simple_rsip.via_text plain_via))
    × (simple_rsip.find_header Sip.to hs ≡ some (codes "to"))
    × (simple_rsip.find_header Sip.from hs ≡ some (codes "from"))
    × (simple_rsip.find_header Sip.call_id hs ≡ some (codes "id"))
    × (simple_rsip.find_header Sip.cseq hs ≡ some (simple_rsip.cseq_text 9 options))
unfolding find_map
options_echo_example =
    options_echo simple_rsip-IsRsip (of_method options) config (5 ∷ []) (codes "to") (codes "from")
      (codes "id") (simple_rsip.cseq_text 9 options) plain_via refl refl refl refl refl refl
