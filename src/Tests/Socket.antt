-- ===== src/Tests/Socket.antt =====
-- The socket over a scripted stream.
use simple_sip_rs.Prelude.{
  text_eq, ◌≡◌, ◌≢◌, refl, ◌⊎◌, true, false, List, [], ◌∷◌, ◌++◌, Option, none, some, Text, codes,
  Outcome, ok, err, missing_header, send_failed,
}
use simple_sip_rs.Channels.{Sender}
use simple_sip_rs.Sip
use simple_sip_rs.Sip.{
  Method, invite, bye, options, v2, StatusCode, status_ok, unauthorized, Challenge, Header, Request,
  Response, SipMessage, request, response,
}
use simple_sip_rs.Media.Features.{Features}
use simple_sip_rs.Call.Session.{find_map}
use simple_sip_rs.Call.Incoming.{IncomingCall}
use simple_sip_rs.Connection.SocketData.{lookup}
use simple_sip_rs.Connection.Socket.{Network, IsNetwork, Socket, register}
use simple_sip_rs.Connection.Socket.Messages.{Fresh, read_ready, handle_call_message, run}
use simple_sip_rs.Connection.Socket.Registration.{IsAuthorized, register_challenged}
use simple_sip_rs.Connection.Socket.Routing.{channel_of, route_outcome}
use simple_sip_rs.Connection.Socket.Ending.{invite_ends_run}
use simple_sip_rs.SipProto.Register.{generate_register_request}
use simple_sip_rs.Tests.Library.{
  Log, log_sender, simple_rsip, simple_rsip-IsRsip, simple_sdp, digest, runtime, runtime-IsSender,
  config, plain_uri,
}

abbrev pub Script : Type 0
Script = List (Outcome SipMessage)

abbrev next_of : Script → Script × Option (Outcome SipMessage)
next_of [] = ([], none)
next_of (x ∷ xs) = (xs, some x)

abbrev pub net : Network
net = record {
  Reader = Script;
  next = next_of;
  Writer = List Text;
  connect = λ addr. some ([], []);
  write_all = λ s text. (s ++ text ∷ [], true);
  written = λ s. s;
  message_text = λ m. [];
}

net-IsNetwork : IsNetwork net
net-IsNetwork = record { write_ok = λ s text h. refl }

abbrev pub calls : Sender (IncomingCall runtime)
calls = log_sender (IncomingCall runtime)

abbrev pub opened : Log SipMessage
opened = record { open_end = true; items = [] }

abbrev pub socket : Script → Socket simple_rsip net runtime calls
socket script = record {
  sip_message_reader = script;
  stream_write = [];
  message_receiver = [];
  message_sender = opened;
  incoming_call_sender = record { open_end = true; items = [] };
  sip_context = record { config = config; next_udp_port = 20480 };
  socket_data = record { call_channels = (codes "a", opened) ∷ [] };
}

abbrev pub features : Features
features = record { opus = false; pcmu = true; pcma = false }

abbrev pub fresh : Fresh runtime
fresh = record { uuid = []; channel = (opened, []) }

abbrev of_call : Method → Text → Request
of_call m id = record {
  method = m;
  uri = plain_uri;
  version = v2;
  headers = record { kind = Sip.call_id; value = id } ∷ [];
  body = [];
}

route_outcome_example :
    let m = request (of_call bye (codes "a")) in
    let (s', taken) = handle_call_message simple_rsip net runtime calls (socket []) m in
    (taken ≡ true)
    × (s'.stream_write ≡ [])
    × ((other : Text)
        → codes "a" ≢ other
        → channel_of simple_rsip net runtime calls s' other
          ≡ channel_of simple_rsip net runtime calls (socket []) other)
    × (((true ≡ true)
          × ((tx' : Log SipMessage) × (channel_of simple_rsip net runtime calls s' (codes "a")
                ≡ some tx')
              × (tx'.items ≡ [] ++ m ∷ [])))
        ⊎ ((true ≡ false) × (channel_of simple_rsip net runtime calls s' (codes "a") ≡ none)))
unfolding find_map lookup text_eq
route_outcome_example =
    route_outcome simple_rsip net runtime calls (socket []) (request (of_call bye (codes "a")))
      (codes "a") opened runtime-IsSender refl refl

abbrev answer_of : StatusCode → Response
answer_of code = record {
  status_code = code;
  version = v2;
  headers = record { kind = Sip.www_authenticate; value = codes "r" } ∷ [];
  body = [];
}

abbrev response_of : StatusCode → SipMessage
response_of code = response (answer_of code)

abbrev script : Script
script = ok (response_of unauthorized) ∷ ok (response_of status_ok) ∷ []

register_challenged_example :
    let (s', o) = register simple_rsip net runtime calls digest 1 [] [] (socket script) in
    let c : Challenge = record { realm = codes "r"; nonce = codes "r" } in
    (q : Request) × IsAuthorized simple_rsip digest config c
      (generate_register_request simple_rsip digest config [] [])
      q
    × (((o ≡ some (ok tt)) × (s'.stream_write ≡ [] ++ [] ∷ [] ∷ []))
        ⊎ ((true ≡ false) × (o ≡ some (err send_failed))))
unfolding find_map
register_challenged_example =
    register_challenged simple_rsip net runtime calls digest 0 [] [] (socket script)
      (answer_of unauthorized) (answer_of status_ok) (codes "r")
      (record { realm = codes "r"; nonce = codes "r" }) (ok (response_of status_ok) ∷ []) []
      ([] ∷ []) simple_rsip-IsRsip net-IsNetwork refl refl refl refl refl refl

abbrev offered : Script
offered = ok (request (of_call invite (codes "b"))) ∷ []

invite_ends_run_example :
    let (s', o) =
      run simple_rsip net runtime calls simple_sdp features
        (socket offered)
        ((read_ready, fresh) ∷ []) in
    (o ≡ some (err missing_header))
    × (s'.stream_write ≡ [])
    × (s'.incoming_call_sender ≡ record { open_end = true; items = [] })
    × (channel_of simple_rsip net runtime calls s' (codes "b") ≡ some opened)
unfolding find_map lookup text_eq
invite_ends_run_example =
    invite_ends_run simple_rsip net runtime calls simple_sdp features (socket offered) []
      (of_call invite (codes "b")) (codes "b") fresh [] refl refl refl refl refl
