-- ===== src/Call/Outgoing.antt =====
-- src/call/outgoing_call.rs: a call that the client has invited and that is not answered yet.
pub mod Answer
pub mod Waiting
pub mod Unanswered
pub mod Requests
use simple_sip_rs.Prelude.{
  ℕ, zero, suc, ◌+◌, Bool, true, false, List, [], ◌∷◌, ◌++◌, Option, none, some, length, Text,
  codes, Outcome, ok, err, panic, ok_or, missing_header, bad_header, unexpected_response,
  channel_closed, no_response, ◌>>=◌, if◌then◌else◌,
}
use simple_sip_rs.Prelude.Word.{u32}
use simple_sip_rs.Config.{Config}
use simple_sip_rs.Config.Headers.{get_own_uri, get_own_contact, get_own_via}
use simple_sip_rs.Context.{SipContext, get_next_udp_port}
use simple_sip_rs.Sip
use simple_sip_rs.Sip.{
  Rsip, Method, invite, ack, cancel, StatusCode, status_ok, trying, ringing, session_progress,
  unauthorized, busy_here, busy_everywhere, service_unavailable, temporarily_unavailable,
  other_status, Uri, Via, Header, Headers, Request, Response, SipMessage, request, response,
}
use simple_sip_rs.Sdp.{WebrtcSdp}
use simple_sip_rs.Media.Features.{Features}
use simple_sip_rs.SipProto.Register.{Digest, add_auth_header}
use simple_sip_rs.Call.Session.{
  LocalSessionParameters, SessionParameters, local_parameters, from_response, cseq_of,
}
use simple_sip_rs.Call.Dialog.{party, get_headers_request}
use simple_sip_rs.Call.Runtime
use simple_sip_rs.Call.Runtime.{Runtime, CallConnection, send_message}

pub data PeekOutgoingCallResponse : Type 0 where
  accepted : PeekOutgoingCallResponse
  rejected : StatusCode → PeekOutgoingCallResponse

module _ (t : Runtime) where
  -- An accepted call is given by what `Call::new` starts it with.
  pub data OutgoingCallResponse : Type 0 where
    started : CallConnection t → SessionParameters → OutgoingCallResponse
    refused : StatusCode → OutgoingCallResponse

  pub record OutgoingCall : Type 0 where
    pub call_connection : CallConnection t
    pub call_id : Text
    pub remote_uri : Uri
    pub cseq : ℕ  -- u32
    pub own_via : Via
    pub local_call_session_params : LocalSessionParameters
    pub config : Config
    pub response : Option Response

abbrev pub is_ok : StatusCode → Bool
is_ok status_ok = true
is_ok _ = false

abbrev pub is_invite : Method → Bool
is_invite invite = true
is_invite _ = false

module _ (r : Rsip) (t : Runtime) (w : WebrtcSdp) where
  unfoldable pub get_base_headers : OutgoingCall t → Headers
  get_base_headers c =
      record { kind = Sip.max_forwards; value = r.max_forwards_default }
      ∷ record { kind = Sip.via; value = r.via_text c.own_via }
      ∷ record { kind = Sip.call_id; value = c.call_id }
      ∷ record {
        kind = Sip.from;
        value =
            r.address_text (party c.local_call_session_params.uri c.local_call_session_params.tag);
      }
      ∷ record {
        kind = Sip.to;
        value = r.address_text (record { display_name = none; uri = c.remote_uri; params = [] });
      }
      ∷ record { kind = Sip.user_agent; value = codes "sip-rs" }
      ∷ []

  unfoldable pub generate_invite : OutgoingCall t → Request
  generate_invite c =
      let body : Text = w.to_text c.local_call_session_params.sdp in
      let h0 = get_base_headers c in
      let h1 =
        r.unique_push
          (record { kind = Sip.content_length; value = r.content_length_text (length body) }) h0 in
      let h2 = r.unique_push (record { kind = Sip.content_type; value = r.sdp_content_type }) h1 in
      let h3 = r.unique_push (record { kind = Sip.cseq; value = r.cseq_text c.cseq invite }) h2 in
      let h4 =
        r.unique_push
          (record { kind = Sip.contact; value = r.address_text (get_own_contact r c.config) }) h3 in
      record {
        method = invite;
        uri = c.remote_uri;
        version = r.version_default;
        headers = h4;
        body = body;
      }

  unfoldable pub generate_cancel : OutgoingCall t → Request
  generate_cancel c =
      let h0 = get_base_headers c in
      let h1 = r.unique_push (record { kind = Sip.cseq; value = r.cseq_text c.cseq cancel }) h0 in
      let h2 =
        r.unique_push (record { kind = Sip.content_length; value = r.content_length_text 0 }) h1 in
      record {
        method = cancel;
        uri = c.remote_uri;
        version = r.version_default;
        headers = h2;
        body = [];
      }

  abbrev Step : Type 0
  Step = OutgoingCall t × Outcome (Unit {0})

  abbrev pub send : OutgoingCall t → SipMessage → Step
  send c m =
      let (connection, done) = send_message t c.call_connection m in
      (record c { call_connection = connection }, done)

  unfoldable pub send_invite : OutgoingCall t → Step
  send_invite c = send c (request (generate_invite c))

  -- `cancel` consumes the call; what is left of it here is its connection.
  unfoldable pub cancel_call : OutgoingCall t → Step
  cancel_call c = send c (request (generate_cancel c))

  abbrev pub created : OutgoingCall t × Outcome (Unit {0}) → Outcome (OutgoingCall t)
  created (c, ok _) = ok c
  created (c, err e) = err e
  created (c, panic) = panic

  -- `try_from`: a local port is taken, and the first `INVITE` is sent.
  unfoldable pub try_from :
      Features
      → SipContext
      → CallConnection t
      → Text
      → Uri
      → Text
      → Text
      → SipContext × Outcome (OutgoingCall t)
  try_from features context connection id uri tag_id branch_id =
      let (context', port) = get_next_udp_port context in
      (
        context',
        do
          local ← local_parameters r w features context'.config tag_id port
          created (
              send_invite (record {
                call_connection = connection;
                call_id = id;
                remote_uri = uri;
                cseq = 1234;
                own_via = get_own_via r context'.config branch_id;
                local_call_session_params = local;
                config = context'.config;
                response = none;
              })),
      )
