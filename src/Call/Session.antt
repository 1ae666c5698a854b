-- ===== src/Call/Session.antt =====
-- src/call/session_parameters.rs: the parameters of a dialog, made from a request or a response,
-- and the headers that later messages of the dialog carry. Identifiers that the code draws at random
-- are arguments.
use simple_sip_rs.Prelude.{
  ℕ, [], ◌∷◌, ◌++◌, Option, none, some, if◌then◌else◌, Text, codes, is_utf8, Outcome, ok, err,
  ok_or, unwrap, ◌>>=◌, missing_header, bad_header, bad_body, bad_sdp, missing_tag,
}
use simple_sip_rs.Config.{Config}
use simple_sip_rs.Config.Headers.{get_own_uri}
use simple_sip_rs.Context.{SipContext, get_next_udp_port}
use simple_sip_rs.Sip
use simple_sip_rs.Sip.{
  Rsip, Method, Uri, NameAddr, Param, tag, HeaderKind, same_kind, Header, Headers, Request,
  Response,
}
use simple_sip_rs.Sdp.{SdpSession, WebrtcSdp}
use simple_sip_rs.SipProto.Sdp.{generate_sdp_new}
use simple_sip_rs.Media.Features.{Features}

pub record LocalSessionParameters : Type 0 where
  pub uri : Uri
  pub tag : Text
  pub sdp : SdpSession
  pub port : ℕ  -- u16

pub record RemoteSessionParameters : Type 0 where
  pub uri : Uri
  pub tag : Text
  pub sdp : SdpSession

pub record SessionParameters : Type 0 where
  pub cseq : ℕ  -- u32
  pub call_id : Text
  pub remote : RemoteSessionParameters
  pub local : LocalSessionParameters
  pub config : Config

-- `headers.iter().find_map(…)` for the headers of one kind.
unfoldable pub find_map : HeaderKind → Headers → Option Text
find_map k [] = none
find_map k (h ∷ hs) =
    let later = find_map k hs in if same_kind h.kind k then some h.value else later

-- What both constructors read of the peer.
pub record Peer : Type 0 where
  pub address : NameAddr
  pub tag : Text
  pub sdp : SdpSession

abbrev utf8_of : Text → Outcome Text
utf8_of body = if is_utf8 body then ok body else err bad_body

module _ (r : Rsip) where
  -- `request.call_id_header()?` and the like.
  abbrev pub header_of : HeaderKind → Headers → Outcome Text
  header_of k hs = ok_or (r.find_header k hs) missing_header

  -- `cseq_header()?.seq()?`
  abbrev pub cseq_of : Headers → Outcome ℕ
  cseq_of hs = do c ← header_of Sip.cseq hs; ok_or (r.cseq_seq c) bad_header

  -- The typed `From` or `To`: an error if there is none, a panic if it is malformed.
  abbrev pub address_of : HeaderKind → Headers → Outcome NameAddr
  address_of k hs = do t ← ok_or (find_map k hs) missing_header; unwrap (r.address_typed t)

module _ (r : Rsip) (w : WebrtcSdp) where
  -- The part of `from_request` that reads the request before a port is taken.
  unfoldable pub read_request : Request → Outcome (Peer × Text)
  read_request q = do
    from ← address_of r Sip.from q.headers
    call_id ← header_of r Sip.call_id q.headers
    body ← utf8_of q.body
    sdp ← ok_or (w.parse_sdp body) bad_sdp
    remote_tag ← ok_or (r.tag_of from.params) missing_tag
    ok (record { address = from; tag = remote_tag; sdp = sdp }, call_id)

  unfoldable pub from_response :
      Response → Text → LocalSessionParameters → Config → Outcome SessionParameters
  from_response response call_id local config = do
    to ← address_of r Sip.to response.headers
    remote_tag ← ok_or (r.tag_of to.params) missing_tag
    body ← utf8_of response.body
    sdp ← ok_or (w.parse_sdp body) bad_sdp
    cseq ← cseq_of r response.headers
    ok (record {
      cseq = cseq;
      call_id = call_id;
      remote = record { uri = to.uri; tag = remote_tag; sdp = sdp };
      local = local;
      config = config;
    })

module _ (r : Rsip) (w : WebrtcSdp) (features : Features) where
  abbrev pub local_parameters : Config → Text → ℕ → Outcome LocalSessionParameters
  local_parameters config uuid port = do
    sdp ← generate_sdp_new w features config port
    ok (record { uri = get_own_uri r config; tag = codes "tt" ++ uuid; sdp = sdp; port = port })

  -- The part after it. The order of the two fallible steps is that of the fields.
  abbrev build_session : Config → Headers → Text → ℕ → Peer × Text → Outcome SessionParameters
  build_session config headers uuid port (peer, call_id) = do
    cseq ← cseq_of r headers
    local ← local_parameters config uuid port
    ok (record {
      cseq = cseq;
      call_id = call_id;
      remote = record { uri = peer.address.uri; tag = peer.tag; sdp = peer.sdp };
      local = local;
      config = config;
    })

  abbrev with_port :
      SipContext → Request → Text → Outcome (Peer × Text) → SipContext × Outcome SessionParameters
  with_port c q uuid (ok read) =
      let (c', port) = get_next_udp_port c in (c', build_session c'.config q.headers uuid port read)
  with_port c q uuid (err e) = (c, err e)
  with_port c q uuid Outcome.panic = (c, Outcome.panic)

  unfoldable pub from_request : SipContext → Request → Text → SipContext × Outcome SessionParameters
  from_request c q uuid = with_port c q uuid (read_request r w q)
