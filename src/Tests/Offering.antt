-- ===== src/Tests/Offering.antt =====
-- An `INVITE` that the server sends, and the channel of its call.
use simple_sip_rs.Prelude.{
  ◌≡◌, refl, ◌⊎◌, [], ◌∷◌, ◌++◌, none, some, text_eq, codes, ok, err, send_failed, Outcome, is_utf8,
}
use simple_sip_rs.Context.{SipContext}
use simple_sip_rs.Media.Features.{populate_sdp_media_from_codecs}
use simple_sip_rs.SipProto.Sdp.{generate_sdp_new}
use simple_sip_rs.Sip.{invite, ringing, request, response}
use simple_sip_rs.Call.Session.{find_map, SessionParameters, from_request, read_request}
use simple_sip_rs.Call.Incoming.Choice.{reply}
use simple_sip_rs.Connection.SocketData.{lookup}
use simple_sip_rs.Connection.Socket.Messages.{read_ready, run}
use simple_sip_rs.Connection.Socket.Routing.{channel_of}
use simple_sip_rs.Connection.Socket.Offering.{call_of, invite_offered}
use simple_sip_rs.Tests.Library.{
  simple_rsip, simple_rsip-IsRsip, simple_sdp, runtime, runtime-IsSender, log_sender-IsSender,
}
use simple_sip_rs.Tests.Calls.{session}
use simple_sip_rs.Tests.Incoming.{of_method}
use simple_sip_rs.Tests.Socket.{net, calls, features, opened, fresh, Script, socket}

abbrev script : Script
script = ok (request (of_method invite)) ∷ []

-- What the INVITE reads as.
abbrev read : SipContext × Outcome SessionParameters
read = from_request simple_rsip simple_sdp features (socket []).sip_context (of_method invite) []

abbrev params_of : Outcome SessionParameters → SessionParameters
params_of (ok p) = p
params_of _ = session

invite_offered_example :
    let (s', o) =
      run simple_rsip net runtime calls simple_sdp features
        (socket script)
        ((read_ready, fresh) ∷ []) in
    let params = params_of read.1 in
    let ring = response (
      reply simple_rsip runtime simple_sdp ringing params
        (5 ∷ [])
        (simple_rsip.cseq_text 9 invite)) in
    (s'.sip_context ≡ read.0)
    × (s'.stream_write ≡ [])
    × (channel_of simple_rsip net runtime calls s' (codes "id") ≡ some opened)
    × (((o ≡ none)
          × (s'.message_sender.items ≡ [] ++ ring ∷ [])
          × (s'.incoming_call_sender.items
              ≡ []
                ++ call_of simple_rsip net runtime calls simple_sdp features
                    (record { sender = s'.message_sender; receiver = [] })
                    params
                    (of_method invite)
                  ∷ []))
        ⊎ ((o ≡ some (err send_failed)) × (s'.incoming_call_sender.items ≡ [])))
unfolding find_map lookup text_eq from_request read_request is_utf8 generate_sdp_new
    populate_sdp_media_from_codecs
invite_offered_example =
    invite_offered simple_rsip net runtime calls simple_sdp features (socket script) []
      (of_method invite) (codes "id") fresh read.0 (params_of read.1) (5 ∷ []) 9 invite
      simple_rsip-IsRsip runtime-IsSender log_sender-IsSender refl refl refl refl refl refl refl
