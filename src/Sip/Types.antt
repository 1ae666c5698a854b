-- ===== src/Sip/Types.antt =====
-- The message types of `rsip`, with the fields and cases that the repository's code names. A
-- header is its kind and its text, which is what the crate keeps of a header until it is asked
-- for the typed value.
use simple_sip_rs.Prelude.{ℕ, Bool, List, Option, Text, ◌==◌}
use simple_sip_rs.Config.{IpAddr, SocketAddr}

pub data Method : Type 0 where
  register invite ack bye cancel options : Method
  other_method : Text → Method

pub data StatusCode : Type 0 where
  trying ringing session_progress status_ok unauthorized : StatusCode
  busy_here busy_everywhere service_unavailable temporarily_unavailable : StatusCode
  other_status : ℕ → StatusCode

pub data Version : Type 0 where
  v1 v2 : Version

pub data Transport : Type 0 where
  tcp : Transport
  other_transport : Text → Transport

pub data Scheme : Type 0 where
  sip : Scheme
  other_scheme : Text → Scheme

pub record Auth : Type 0 where
  pub user : Text
  pub password : Option Text

-- `HostWithPort::from` of a socket address, of an address and a port, and what a peer sends.
pub data HostWithPort : Type 0 where
  of_socket_addr : SocketAddr → HostWithPort
  of_ip : IpAddr → Option ℕ → HostWithPort
  named : Text → HostWithPort

pub data Param : Type 0 where
  transport : Transport → Param
  branch : Text → Param
  tag : Text → Param
  other_param : Text → Option Text → Param

-- `headers` are those that a URI itself may carry.
pub record Uri : Type 0 where
  pub scheme : Option Scheme
  pub auth : Option Auth
  pub host_with_port : HostWithPort
  pub params : List Param
  pub headers : Option Text

-- The typed `From`, `To` and `Contact`.
pub record NameAddr : Type 0 where
  pub display_name : Option Text
  pub uri : Uri
  pub params : List Param

pub record Via : Type 0 where
  pub version : Version
  pub transport : Transport
  pub uri : Uri
  pub params : List Param

-- The typed `Authorization`; the scheme is Digest, the algorithm MD5, and there is no opaque value
-- or quality of protection.
pub record Authorization : Type 0 where
  pub username : Text
  pub realm : Text
  pub nonce : Text
  pub uri : Uri
  pub response : Text

-- What is read of the typed `WWW-Authenticate`.
pub record Challenge : Type 0 where
  pub realm : Text
  pub nonce : Text

pub data HeaderKind : Type 0 where
  via max_forwards contact to from call_id cseq allow accept accept_language : HeaderKind
  user_agent content_length content_type authorization www_authenticate other_header : HeaderKind

abbrev kind_code : HeaderKind → ℕ
kind_code via = 0
kind_code max_forwards = 1
kind_code contact = 2
kind_code to = 3
kind_code from = 4
kind_code call_id = 5
kind_code cseq = 6
kind_code allow = 7
kind_code accept = 8
kind_code accept_language = 9
kind_code user_agent = 10
kind_code content_length = 11
kind_code content_type = 12
kind_code authorization = 13
kind_code www_authenticate = 14
kind_code other_header = 15

-- Are two headers of one kind?
abbrev pub same_kind : HeaderKind → HeaderKind → Bool
same_kind a b = kind_code a == kind_code b

pub record Header : Type 0 where
  pub kind : HeaderKind
  pub value : Text

abbrev pub Headers : Type 0
Headers = List Header

pub record Request : Type 0 where
  pub method : Method
  pub uri : Uri
  pub version : Version
  pub headers : Headers
  pub body : Text

pub record Response : Type 0 where
  pub status_code : StatusCode
  pub version : Version
  pub headers : Headers
  pub body : Text

pub data SipMessage : Type 0 where
  request : Request → SipMessage
  response : Response → SipMessage

abbrev pub message_headers : SipMessage → Headers
message_headers (request r) = r.headers
message_headers (response r) = r.headers

abbrev pub message_body : SipMessage → Text
message_body (request r) = r.body
message_body (response r) = r.body

abbrev pub with_body : SipMessage → Text → SipMessage
with_body (request r) b = request (record r { body = b })
with_body (response r) b = response (record r { body = b })

abbrev pub with_headers : SipMessage → Headers → SipMessage
with_headers (request r) hs = request (record r { headers = hs })
with_headers (response r) hs = response (record r { headers = hs })
