-- ===== src/Tests/Library.antt =====
-- Concrete libraries that meet the laws of the interfaces: a `CSeq` is coded as numbers, an address
-- reads as one fixed party, a channel is the list of what it holds.
use simple_sip_rs.Prelude.{
  ℕ, ◌≡◌, refl, Bool, true, false, List, [], ◌∷◌, ◌++◌, Option, none, some, Text, codes, arith, not,
  drop,
}
use Prim.Native.Nat.{zero, suc}
use simple_sip_rs.Config.{Config, v4}
use simple_sip_rs.Channels.{Sender, IsSender, Receiver, IsReceiver, TryRecv, received, disconnected}
use simple_sip_rs.Sip.{
  Rsip, IsRsip, Method, register, invite, ack, bye, cancel, options, other_method, v2, Uri, Param,
  tag, named, NameAddr, tcp, SipMessage,
}
use simple_sip_rs.Sdp.{SdpSession, rtpmap, WebrtcSdp, IsWebrtcSdp, ip}
use simple_sip_rs.Call.Session.{find_map}
use simple_sip_rs.Call.Runtime.{Runtime, CallControl}
use simple_sip_rs.SipProto.Register.{Digest}

abbrev method_code : Method → Text
method_code register = 0 ∷ []
method_code invite = 1 ∷ []
method_code ack = 2 ∷ []
method_code bye = 3 ∷ []
method_code cancel = 4 ∷ []
method_code options = 5 ∷ []
method_code (other_method t) = 6 ∷ t

abbrev method_of_code : Text → Option Method
method_of_code [] = none
method_of_code (zero ∷ t) = some register
method_of_code (suc zero ∷ t) = some invite
method_of_code (suc (suc zero) ∷ t) = some ack
method_of_code (suc (suc (suc zero)) ∷ t) = some bye
method_of_code (suc (suc (suc (suc zero))) ∷ t) = some cancel
method_of_code (suc (suc (suc (suc (suc zero)))) ∷ t) = some options
method_of_code (suc (suc (suc (suc (suc (suc n))))) ∷ t) = some (other_method t)

method_read : (m : Method) → method_of_code (method_code m) ≡ some m
method_read register = refl
method_read invite = refl
method_read ack = refl
method_read bye = refl
method_read cancel = refl
method_read options = refl
method_read (other_method t) = refl

abbrev pub plain_uri : Uri
plain_uri = record {
  scheme = none;
  auth = none;
  host_with_port = named [];
  params = [];
  headers = none;
}

abbrev pub plain_party : NameAddr
plain_party = record { display_name = none; uri = plain_uri; params = tag (codes "a") ∷ [] }

abbrev first_number : Text → Option ℕ
first_number [] = none
first_number (n ∷ t) = some n

abbrev rest_method : Text → Option Method
rest_method [] = none
rest_method (n ∷ t) = method_of_code t

abbrev first_tag : List Param → Option Text
first_tag (tag t ∷ ps) = some t
first_tag _ = none

abbrev pub simple_rsip : Rsip
simple_rsip = record {
  uri_default = plain_uri;
  version_default = v2;
  via_text = λ v. [];
  via_typed = λ t. some (record { version = v2; transport = tcp; uri = plain_uri; params = [] });
  address_text = λ a. [];
  address_typed = λ t. some plain_party;
  cseq_text = λ n m. n ∷ method_code m;
  cseq_seq = first_number;
  cseq_method = rest_method;
  cseq_with_seq = λ t n. some (n ∷ drop 1 t);
  allow_text = λ ms. [];
  content_length_text = λ n. n ∷ [];
  length_of = first_number;
  max_forwards_default = 70 ∷ [];
  sdp_content_type = [];
  sdp_accept = [];
  authorization_text = λ a. a.response;
  challenge_typed = λ t. some (record { realm = t; nonce = t });
  method_text = method_code;
  tag_of = first_tag;
  find_header = find_map;
  unique_push = λ h hs. h ∷ hs;
}

pub simple_rsip-IsRsip : IsRsip simple_rsip
unfolding find_map
simple_rsip-IsRsip = record {
  find-nil = λ k. refl;
  find-cons = λ k h hs. refl;
  find-unique_push = λ k h hs. refl;
  cseq_read_seq = λ n m. refl;
  cseq_read_method = λ n m. method_read m;
  cseq_with_seq_lem = λ n k m. refl;
  tag_read = λ t ps. refl;
}

abbrev pub config : Config
config = record {
  server_addr = record { ip = v4 1; port = 5060 };
  own_addr = record { ip = v4 2; port = 5060 };
  username = codes "user";
  password = codes "secret";
  rtp_port_start = 20480;
  rtp_port_end = 20490;
}

abbrev pub plain_sdp : SdpSession
plain_sdp = record {
  version = 0;
  origin = record { username = []; session_id = 0; session_version = 0; unicast_addr = ip (v4 1) };
  session = [];
  connection = none;
  timing = none;
  media = [];
}

abbrev pub simple_sdp : WebrtcSdp
simple_sdp = record {
  parse_sdp = λ t. some plain_sdp;
  to_text = λ s. [];
  add_codec = λ r m. some (record m {
    formats = m.formats ++ r.payload_type ∷ [];
    attributes = m.attributes ++ rtpmap r ∷ [];
  });
  add_attribute = λ a m. some (record m { attributes = m.attributes ++ a ∷ [] });
  get_ptime = λ m. none;
}

pub simple_sdp-IsWebrtcSdp : IsWebrtcSdp simple_sdp
simple_sdp-IsWebrtcSdp = record { add_codec_lem = λ r m. refl; add_attribute_lem = λ a m h. refl }

abbrev pub digest : Digest
digest = record { md5_hex = λ t. t; ip_text = λ a. [] }

-- A channel with its receiving end open or not, and what has gone through it.
pub record Log (A : Type 0) : Type 0 where
  pub open_end : Bool
  pub items : List A

abbrev accept : {A : Type 0} → Log A → A → Bool → Log A × Bool
accept s a true = (record s { items = s.items ++ a ∷ [] }, true)
accept s a false = (s, false)

abbrev pub log_sender : (A : Type 0) → Sender A
log_sender A = record {
  State = Log A;
  send = λ s a. accept s a s.open_end;
  is_closed = λ s. not s.open_end;
  sent = λ s. s.items;
}

pub log_sender-IsSender : {A : Type 0} → IsSender (log_sender A)
log_sender-IsSender = record {
  send_ok = λ s a h. ground arith;
  send_failed = λ s a h. ground arith;
}

abbrev next_of : {A : Type 0} → List A → List A × Option A
next_of [] = ([], none)
next_of (a ∷ as') = (as', some a)

abbrev try_of : {A : Type 0} → List A → List A × TryRecv A
try_of [] = ([], disconnected)
try_of (a ∷ as') = (as', received a)

abbrev pub list_receiver : (A : Type 0) → Receiver A
list_receiver A = record {
  State = List A;
  is_closed = λ s. false;
  recv = next_of;
  try_recv = try_of;
  arrivals = λ s. s;
  queued = λ s. s;
}

pub list_receiver-IsReceiver : {A : Type 0} → IsReceiver (list_receiver A)
list_receiver-IsReceiver = record {
  recv_next = λ s a as' e. rw e (refl, refl);
  recv_end = λ s e. rw e;
  recv_closed = λ s e. rw e;
  try_recv_next = λ s a as' e. rw e (refl, refl);
  try_recv_end = λ s a e h. ground arith;
}

abbrev pub runtime : Runtime
runtime = record {
  message_tx = log_sender SipMessage;
  message_rx = list_receiver SipMessage;
  control_tx = log_sender CallControl;
  control_rx = list_receiver CallControl;
}

pub runtime-IsSender : IsSender runtime.message_tx
runtime-IsSender = log_sender-IsSender

pub runtime-IsReceiver : IsReceiver runtime.message_rx
runtime-IsReceiver = list_receiver-IsReceiver
