-- ===== src/Connection/Socket/Kept.antt =====
-- What src/connection/sip_socket.rs leaves alone: the channel of a call, whenever it handles anything
-- but a message with that call's id.
use simple_sip_rs.Prelude.{
  ◌≡◌, refl, ◌∙◌, false, ◌∷◌, Option, none, some, Text, text_eq, Outcome, ok, err, panic,
  missing_header, ok_or,
}
use simple_sip_rs.Context.{SipContext}
use simple_sip_rs.Channels.{Sender}
use simple_sip_rs.Sip
use simple_sip_rs.Sip.{
  Rsip, Method, register, invite, ack, bye, cancel, options, other_method, Headers, Request,
  Response, SipMessage, request, response, message_headers,
}
use simple_sip_rs.Sdp.{WebrtcSdp}
use simple_sip_rs.Media.Features.{Features}
use simple_sip_rs.Call.Runtime.{Runtime, CallConnection}
use simple_sip_rs.Call.Incoming.{IncomingCall, try_from_request}
use simple_sip_rs.Connection.SocketData.{SocketData, lookup, insert, create_call_channel}
use simple_sip_rs.Connection.Socket.{Network, send_message}
use simple_sip_rs.Connection.Socket.Messages.{
  Sock, Fresh, answer, hand_over, offer, invited, by_method, handle_sip_request, handle_message,
}
use simple_sip_rs.Connection.Socket.Routing.{channel_of}

-- The header does not name the call.
abbrev pub IsOther : Text → Option Text → Type 0
IsOther id none = Unit {0}
IsOther id (some other) = text_eq other id ≡ false

module _ (r : Rsip) (n : Network) (t : Runtime) (calls : Sender (IncomingCall t)) (w : WebrtcSdp)
    (features : Features) (id : Text) where
  abbrev SameChannel : Sock r n t calls → Sock r n t calls → Type 0
  SameChannel s s' = channel_of r n t calls s' id ≡ channel_of r n t calls s id

  answer-SameChannel :
      (s : Sock r n t calls) (o : Outcome SipMessage)
      → SameChannel s (answer r n t calls w features s o).0
  unfolding send_message
  answer-SameChannel s (ok m) = refl
  answer-SameChannel s (err e) = refl
  answer-SameChannel s panic = refl

  hand_over-SameChannel :
      (s : Sock r n t calls) (context : SipContext) (c : CallConnection t)
      (o : Outcome (IncomingCall t))
      → SameChannel s (hand_over r n t calls w features s (context, c, o)).0
  hand_over-SameChannel s context c (ok call) = refl
  hand_over-SameChannel s context c (err e) = refl
  hand_over-SameChannel s context c panic = refl

  offer-SameChannel :
      (s : Sock r n t calls) (q : Request) (fresh : Fresh t) (other : Text)
      (known : Option t.message_tx.State)
      → text_eq other id ≡ false
      → SameChannel s
          (offer r n t calls w features s q fresh.uuid
            (insert s.socket_data other fresh.channel known)).0
  unfolding lookup
  offer-SameChannel s q fresh other (some tx) d = refl
  offer-SameChannel s q fresh other none d =
      let data' : SocketData t.message_tx.State = record {
        call_channels = (other, fresh.channel.0) ∷ s.socket_data.call_channels;
      } in
      let s' = record s { socket_data = data' } in
      let (context, c, o) =
        try_from_request r t w features s.sip_context q
          (record { sender = s.message_sender; receiver = fresh.channel.1 }) fresh.uuid in
      hand_over-SameChannel s' context c o ∙ rw d refl

  invited-SameChannel :
      (s : Sock r n t calls) (q : Request) (fresh : Fresh t) (name : Option Text)
      → IsOther id name
      → SameChannel s (invited r n t calls w features s q fresh (ok_or name missing_header)).0
  unfolding create_call_channel
  invited-SameChannel s q fresh none d = refl
  invited-SameChannel s q fresh (some other) d = offer-SameChannel s q fresh other _ d

  by_method-SameChannel :
      (s : Sock r n t calls) (m : Method) (q : Request) (fresh : Fresh t)
      → IsOther id (r.find_header Sip.call_id q.headers)
      → SameChannel s (by_method r n t calls w features m s q fresh).0
  by_method-SameChannel s options q fresh d = answer-SameChannel s _
  by_method-SameChannel s invite q fresh d = invited-SameChannel s q fresh _ d
  by_method-SameChannel s register q fresh d = refl
  by_method-SameChannel s ack q fresh d = refl
  by_method-SameChannel s bye q fresh d = refl
  by_method-SameChannel s cancel q fresh d = refl
  by_method-SameChannel s (other_method x) q fresh d = refl

  pub handle_message-SameChannel :
      (s : Sock r n t calls) (m : SipMessage) (fresh : Fresh t)
      → IsOther id (r.find_header Sip.call_id (message_headers m))
      → channel_of r n t calls (handle_message r n t calls w features s m fresh).0 id
        ≡ channel_of r n t calls s id
  unfolding handle_message handle_sip_request
  handle_message-SameChannel s (request q) fresh d = by_method-SameChannel s q.method q fresh d
  handle_message-SameChannel s (response res) fresh d = refl
