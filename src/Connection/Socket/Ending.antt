-- ===== src/Connection/Socket/Ending.antt =====
-- What one message can do to the loop of src/connection/sip_socket.rs.
use simple_sip_rs.Prelude.{
  ◌≡◌, refl, sym, subst, false, List, ◌∷◌, none, some, Text, ok, err, panic, missing_header,
  text_eq_refl,
}
use simple_sip_rs.Context.{SipContext}
use simple_sip_rs.Channels.{Sender}
use simple_sip_rs.Sip
use simple_sip_rs.Sip.{Rsip, Method, options, invite, Request, SipMessage, request}
use simple_sip_rs.Sdp.{WebrtcSdp}
use simple_sip_rs.Media.Features.{Features}
use simple_sip_rs.SipProto.Options.{generate_options_response}
use simple_sip_rs.Call.Session.{find_map, read_request, from_request}
use simple_sip_rs.Call.Runtime.{Runtime, CallConnection}
use simple_sip_rs.Call.Incoming.{IncomingCall, try_from_request}
use simple_sip_rs.Connection.SocketData.{create_call_channel, lookup}
use simple_sip_rs.Connection.Socket.{Network}
use simple_sip_rs.Connection.Socket.Messages.{
  Sock, Ready, read_ready, Fresh, handle_call_message, handle_sip_request, by_method,
  handle_message, round, run,
}
use simple_sip_rs.Connection.Socket.Routing.{channel_of}

module _ (r : Rsip) (n : Network) (t : Runtime) (calls : Sender (IncomingCall t)) (w : WebrtcSdp)
    (features : Features) where
  pub unrouted :
      (s : Sock r n t calls) (q : Request) (id : Text)
      → r.find_header Sip.call_id q.headers ≡ some id
      → channel_of r n t calls s id ≡ none
      → handle_call_message r n t calls s (request q) ≡ (s, false)
  unfolding handle_call_message
  unrouted s q id h k = rw (h, k)

  pub fresh_channel :
      (s : Sock r n t calls) (id : Text) (fresh : Fresh t)
      → channel_of r n t calls s id ≡ none
      → create_call_channel s.socket_data id fresh.channel ≡ (
        record { call_channels = (id, fresh.channel.0) ∷ s.socket_data.call_channels },
        ok fresh.channel.1,
      )
  unfolding create_call_channel
  fresh_channel s id fresh k = rw k

  no_from :
      (context : SipContext) (q : Request) (connection : CallConnection t) (uuid : Text)
      → find_map Sip.from q.headers ≡ none
      → try_from_request r t w features context q connection uuid
        ≡ (context, connection, err missing_header)
  unfolding try_from_request from_request read_request
  no_from context q connection uuid f = rw f

  -- The socket with the channel of a new call.
  abbrev pub with_channel : Sock r n t calls → Text → Fresh t → Sock r n t calls
  with_channel s id fresh = record s {
    socket_data = record { call_channels = (id, fresh.channel.0) ∷ s.socket_data.call_channels };
  }

  bad_invite :
      (s : Sock r n t calls) (q : Request) (id : Text) (fresh : Fresh t)
      → q.method ≡ invite
      → r.find_header Sip.call_id q.headers ≡ some id
      → channel_of r n t calls s id ≡ none
      → find_map Sip.from q.headers ≡ none
      → handle_message r n t calls w features s (request q) fresh
        ≡ (with_channel s id fresh, err missing_header)
  unfolding handle_message handle_sip_request
  bad_invite s q id fresh i h k f =
      subst
        (λ (m : Method).
          by_method r n t calls w features m s q fresh
          ≡ (with_channel s id fresh, err missing_header))
        (sym i)
        (rw
          (
            h,
            fresh_channel s id fresh k,
            no_from s.sip_context q
                (record { sender = s.message_sender; receiver = fresh.channel.1 }) fresh.uuid f,
          )
          refl)

  -- An INVITE without a From header, under a call id that no call has, ends the loop of the
  -- socket with an error; nothing is written, no call is handed over, and a channel stays in the
  -- map under the call id.
  pub invite_ends_run :
      (s : Sock r n t calls) (reader : n.Reader) (q : Request) (id : Text) (fresh : Fresh t)
      (later : List (Ready × Fresh t))
      → n.next s.sip_message_reader ≡ (reader, some (ok (request q)))
      → q.method ≡ invite
      → r.find_header Sip.call_id q.headers ≡ some id
      → channel_of r n t calls s id ≡ none
      → find_map Sip.from q.headers ≡ none
      → let (s', o) = run r n t calls w features s ((read_ready, fresh) ∷ later) in
        (o ≡ some (err missing_header))
        × (s'.stream_write ≡ s.stream_write)
        × (s'.incoming_call_sender ≡ s.incoming_call_sender)
        × (channel_of r n t calls s' id ≡ some fresh.channel.0)
  unfolding run round lookup
  invite_ends_run s reader q id fresh later e i h k f =
      let s0 = record s { sip_message_reader = reader } in
      rw (e, unrouted s0 q id h k, bad_invite s0 q id fresh i h k f)
        (refl, refl, refl, rw (text_eq_refl id))

  -- An OPTIONS request without a Via header, under a call id that no call has, panics the task of
  -- the socket.
  pub options_panics_run :
      (s : Sock r n t calls) (reader : n.Reader) (q : Request) (id : Text) (fresh : Fresh t)
      (later : List (Ready × Fresh t))
      → n.next s.sip_message_reader ≡ (reader, some (ok (request q)))
      → q.method ≡ options
      → r.find_header Sip.call_id q.headers ≡ some id
      → channel_of r n t calls s id ≡ none
      → r.find_header Sip.via q.headers ≡ none
      → (run r n t calls w features s ((read_ready, fresh) ∷ later)).1 ≡ some panic
  unfolding run round handle_message handle_sip_request generate_options_response
  options_panics_run s reader q id fresh later e i h k v =
      rw (e, unrouted (record s { sip_message_reader = reader }) q id h k, i, v)
