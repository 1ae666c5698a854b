-- ===== src/Connection/Socket.antt =====
-- src/connection/sip_socket.rs: the socket to the server, which registers, hands messages to their
-- calls and answers the others. The stream's two halves are libraries' and so an interface: a reader
-- that frames the messages (`FramedRead` over the decoder) and a writer.
pub mod Opening
pub mod Messages
pub mod Registration
pub mod Routing
pub mod Kept
pub mod Delivered
pub mod Demux
pub mod Farewell
pub mod Ending
pub mod Offering
use simple_sip_rs.Prelude.{
  ℕ, zero, suc, ◌≡◌, Bool, true, false, List, [], ◌∷◌, ◌++◌, Option, none, some, Text, Outcome, ok,
  err, panic, unwrap, ok_or, ◌>>=◌, bad_header, missing_header, send_failed, unexpected_response,
  unexpected_status, if◌then◌else◌,
}
use simple_sip_rs.Config.{Config, SocketAddr}
use simple_sip_rs.Context.{SipContext}
use simple_sip_rs.Channels.{Sender}
use simple_sip_rs.Sip
use simple_sip_rs.Sip.{
  Rsip, Method, StatusCode, status_ok, unauthorized, Challenge, HeaderKind, same_kind, Header,
  Headers, Request, Response, SipMessage, request, response, message_headers, with_headers,
}
use simple_sip_rs.Sdp.{WebrtcSdp}
use simple_sip_rs.Media.Features.{Features}
use simple_sip_rs.SipProto.Register.{Digest, add_auth_header, generate_register_request}
use simple_sip_rs.SipProto.Options.{generate_options_response}
use simple_sip_rs.Call.Session.{header_of}
use simple_sip_rs.Call.Runtime.{Runtime, CallConnection}
use simple_sip_rs.Call.Incoming.{IncomingCall, try_from_request}
use simple_sip_rs.Connection.SocketData.{SocketData, lookup, update, remove, create_call_channel}

-- `next` waits for a message; `none` is the end of the stream. `written` is what was written whole.
-- `connect` opens the stream to the server.
pub record Network : Type 1 where
  pub Reader : Type 0
  pub next : Reader → Reader × Option (Outcome SipMessage)
  pub Writer : Type 0
  pub connect : SocketAddr → Option (Reader × Writer)
  pub write_all : Writer → Text → Writer × Bool
  pub written : Writer → List Text
  pub message_text : SipMessage → Text

pub record IsNetwork (n : Network) : Type 0 where
  pub write_ok :
      (s : n.Writer) (text : Text)
      → (n.write_all s text).1 ≡ true
      → n.written (n.write_all s text).0 ≡ n.written s ++ text ∷ []

-- The handles that `clone` makes of a sender are one channel; a state of it is copied with them.
pub record SipSocket (n : Network) (t : Runtime) (calls : Sender (IncomingCall t)) : Type 0 where
  pub sip_message_reader : n.Reader
  pub stream_write : n.Writer
  pub message_receiver : t.message_rx.State
  pub message_sender : t.message_tx.State
  pub incoming_call_sender : calls.State
  pub sip_context : SipContext
  pub socket_data : SocketData t.message_tx.State

-- `cseq_header_mut()?.mut_seq(…)?`: the first header of the kind gets another text.
unfoldable pub replace_first : HeaderKind → Text → Headers → Headers
replace_first k text [] = []
replace_first k text (h ∷ hs) =
    let later = replace_first k text hs in
    if same_kind h.kind k then record h { value = text } ∷ hs else h ∷ later

-- What comes of a step: `none` means that the fuel of a wait ran out.
abbrev pub bind :
    {S A B : Type 0}
    → S × Option (Outcome A)
    → (S → A → S × Option (Outcome B))
    → S × Option (Outcome B)
bind (s, none) f = (s, none)
bind (s, some (ok a)) f = f s a
bind (s, some (err e)) f = (s, some (err e))
bind (s, some panic) f = (s, some panic)

abbrev pub lift : {S A : Type 0} → S × Outcome A → S × Option (Outcome A)
lift (s, o) = (s, some o)

module _ (r : Rsip) (n : Network) (t : Runtime) (calls : Sender (IncomingCall t)) where
  abbrev pub Socket : Type 0
  Socket = SipSocket n t calls

  unfoldable pub send_message : Socket → SipMessage → Socket × Outcome (Unit {0})
  send_message s m =
      let (writer, done) = n.write_all s.stream_write (n.message_text m) in
      (record s { stream_write = writer }, if done then ok tt else err send_failed)

  abbrev pub read_after :
      Socket
      → Option (Outcome SipMessage)
      → Socket × Option (Outcome SipMessage)
      → Socket × Option (Outcome SipMessage)
  read_after s none later = later
  read_after s (some o) later = (s, some o)

  unfoldable pub read_next_message : ℕ → Socket → Socket × Option (Outcome SipMessage)
  read_next_message zero s = (s, none)
  read_next_message (suc fuel) s =
      let (reader, x) = n.next s.sip_message_reader in
      let s' = record s { sip_message_reader = reader } in
      let later = read_next_message fuel s' in read_after s' x later

module _ (r : Rsip) (d : Digest) where
  unfoldable pub set_seq : ℕ → SipMessage → Outcome SipMessage
  set_seq seq m = do
    c ← ok_or (r.find_header Sip.cseq (message_headers m)) missing_header
    c' ← ok_or (r.cseq_with_seq c seq) bad_header
    ok (with_headers m (replace_first Sip.cseq c' (message_headers m)))

  -- A challenge that is missing panics, one that does not parse is an error.
  abbrev pub register_challenge : Response → Outcome Challenge
  register_challenge res = do
    c ← unwrap (r.find_header Sip.www_authenticate res.headers)
    ok_or (r.challenge_typed c) bad_header

  unfoldable pub authorized_register : Config → SipMessage → Challenge → Outcome SipMessage
  authorized_register config req c = do
    m ← add_auth_header r d req (record { config = config; realm = c.realm; nonce = c.nonce })
    set_seq 2 m

module _ (r : Rsip) (n : Network) (t : Runtime) (calls : Sender (IncomingCall t)) (d : Digest) where
  abbrev pub Registered : Type 0
  Registered = Socket r n t calls × Option (Outcome (Unit {0}))

  abbrev second_answer : Socket r n t calls → SipMessage → Registered
  second_answer s (request q) = (s, some (err unexpected_response))
  second_answer s (response res) = second_status s res.status_code
    where
      second_status : Socket r n t calls → StatusCode → Registered
      second_status s status_ok = (s, some (ok tt))
      second_status s _ = (s, some (err unexpected_status))

  abbrev pub authorize : ℕ → Config → SipMessage → Socket r n t calls → Response → Registered
  authorize fuel config req s res =
      bind (s, some (register_challenge r d res))
        λ s0 c.
          bind (s0, some (authorized_register r d config req c))
            λ s1 m.
              bind (lift (send_message r n t calls s1 m))
                λ s2 _. bind (read_next_message r n t calls fuel s2) second_answer

  abbrev first_status :
      ℕ → Config → SipMessage → Socket r n t calls → Response → StatusCode → Registered
  first_status fuel config req s res unauthorized = authorize fuel config req s res
  first_status fuel config req s res status_ok = (s, some (ok tt))
  first_status fuel config req s res _ = (s, some (err unexpected_status))

  abbrev first_answer : ℕ → Config → SipMessage → Socket r n t calls → SipMessage → Registered
  first_answer fuel config req s (request q) = (s, some (err unexpected_response))
  first_answer fuel config req s (response res) = first_status fuel config req s res res.status_code

  -- `register`, with the identifiers of its request.
  unfoldable pub register : ℕ → Text → Text → Socket r n t calls → Registered
  register fuel branch_id id s =
      let config = s.sip_context.config in
      let req = request (generate_register_request r d config branch_id id) in
      bind (lift (send_message r n t calls s req)) λ s1 _.
        bind (read_next_message r n t calls fuel s1) λ s2 m. first_answer fuel config req s2 m
