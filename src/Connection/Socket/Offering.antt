-- ===== src/Connection/Socket/Offering.antt =====
-- An `INVITE` from the server on its way to the user: src/connection/sip_socket.rs reads it, and
-- src/call/incoming_call.rs makes a call of it that rings.
use simple_sip_rs.Prelude.{
  ◌≡◌, refl, sym, subst, ◌⊎◌, inl, inr, [], ◌∷◌, ◌++◌, Option, Outcome, none, some, Text, ok, err,
  send_failed, text_eq_refl, Bool-cases, ℕ,
}
use simple_sip_rs.Context.{SipContext}
use simple_sip_rs.Channels.{Sender, IsSender}
use simple_sip_rs.Sip as Sip
use simple_sip_rs.Sip.{
  Rsip, IsRsip, Method, invite, via, cseq, ringing, Request, SipMessage, request, response,
}
use simple_sip_rs.Sdp.{WebrtcSdp}
use simple_sip_rs.Media.Features.{Features}
use simple_sip_rs.Call.Session.{SessionParameters, from_request}
use simple_sip_rs.Call.Runtime.{Runtime, CallConnection, send_message}
use simple_sip_rs.Call.Incoming.{IncomingCall, send_ringing, rung, try_from_request}
use simple_sip_rs.Call.Incoming.Choice.{reply, reply_lem}
use simple_sip_rs.Connection.SocketData.{lookup}
use simple_sip_rs.Connection.Socket.{Network}
use simple_sip_rs.Connection.Socket.Messages.{
  Sock, read_ready, Fresh, hand_over, handle_sip_request, by_method, handle_message, passing, round,
  go_on, run,
}
use simple_sip_rs.Connection.Socket.Routing.{channel_of}
use simple_sip_rs.Connection.Socket.Ending.{unrouted, fresh_channel, with_channel}

module _ (r : Rsip) (n : Network) (t : Runtime) (calls : Sender (IncomingCall t)) (w : WebrtcSdp)
    (features : Features) where
  -- The call that rings, and the one that is offered before it does.
  abbrev pub call_of : CallConnection t → SessionParameters → Request → IncomingCall t
  call_of connection params q = record {
    call_connection = connection;
    call_session_params = params;
    request = q;
  }

  offered_lem :
      (context context' : SipContext) (q : Request) (connection : CallConnection t) (uuid : Text)
      (params : SessionParameters) (v : Text) (k : ℕ) (m : Method)
      → IsRsip r
      → from_request r w features context q uuid ≡ (context', ok params)
      → r.find_header via q.headers ≡ some v
      → r.find_header cseq q.headers ≡ some (r.cseq_text k m)
      → let ring = response (reply r t w ringing params v (r.cseq_text k m)) in
        let (connection', done) = send_message t connection ring in
        try_from_request r t w features context q connection uuid
        ≡ rung r t w context' (call_of connection' params q, done)
  unfolding try_from_request send_ringing
  offered_lem context context' q connection uuid params v k m laws read hv hc =
      rw (read, reply_lem r t w (call_of connection params q) q ringing v k m laws hv hc) refl

  abbrev ends_of : Sock r n t calls → Fresh t → CallConnection t
  ends_of s fresh = record { sender = s.message_sender; receiver = fresh.channel.1 }

  handled_lem :
      (s : Sock r n t calls) (q : Request) (id : Text) (fresh : Fresh t) (context' : SipContext)
      (params : SessionParameters) (v : Text) (k : ℕ) (m : Method)
      → IsRsip r
      → q.method ≡ invite
      → r.find_header Sip.call_id q.headers ≡ some id
      → channel_of r n t calls s id ≡ none
      → from_request r w features s.sip_context q fresh.uuid ≡ (context', ok params)
      → r.find_header via q.headers ≡ some v
      → r.find_header cseq q.headers ≡ some (r.cseq_text k m)
      → let ring = response (reply r t w ringing params v (r.cseq_text k m)) in
        let (connection', done) = send_message t (ends_of s fresh) ring in
        handle_message r n t calls w features s (request q) fresh
        ≡ hand_over r n t calls w features
            (with_channel r n t calls w features s id fresh)
            (rung r t w context' (call_of connection' params q, done))
  unfolding handle_message handle_sip_request
  handled_lem s q id fresh context' params v k m laws i h none_yet read hv hc =
      subst
        (λ (method : Method).
          let ring = response (reply r t w ringing params v (r.cseq_text k m)) in
          let (connection', done) = send_message t (ends_of s fresh) ring in
          by_method r n t calls w features method s q fresh
          ≡ hand_over r n t calls w features (with_channel r n t calls w features s id fresh)
              (rung r t w context' (call_of connection' params q, done)))
        (sym i)
        (rw
          (
            h,
            fresh_channel r n t calls w features s id fresh none_yet,
            offered_lem s.sip_context context' q (ends_of s fresh) fresh.uuid params v k m laws read
                hv hc,
          )
          refl)

  abbrev Round : Type 0
  Round = Sock r n t calls × Option (Outcome (Unit {0}))

  -- What there is after the round: the channel of the call; and the call has rung and is with the
  -- user, or an error ends the loop and no call is.
  abbrev Offers :
      Sock r n t calls
      → Request
      → Text
      → SipContext
      → SessionParameters
      → Fresh t
      → SipMessage
      → Round
      → Type 0
  Offers s q id context' params fresh ring (s', o) =
      (s'.sip_context ≡ context')
      × (s'.stream_write ≡ s.stream_write)
      × (channel_of r n t calls s' id ≡ some fresh.channel.0)
      × (((o ≡ none)
            × (t.message_tx.sent s'.message_sender
                ≡ t.message_tx.sent s.message_sender ++ ring ∷ [])
            × (calls.sent s'.incoming_call_sender
                ≡ calls.sent s.incoming_call_sender
                  ++ call_of (record { sender = s'.message_sender; receiver = fresh.channel.1 })
                      params q
                    ∷ []))
          ⊎ ((o ≡ some (err send_failed))
              × (calls.sent s'.incoming_call_sender ≡ calls.sent s.incoming_call_sender)))

  handed-Offers :
      (s : Sock r n t calls) (q : Request) (id : Text) (fresh : Fresh t) (context' : SipContext)
      (params : SessionParameters) (ring : SipMessage)
      → IsSender t.message_tx
      → IsSender calls
      → let (connection', done) = send_message t (ends_of s fresh) ring in
        Offers s q id context' params fresh ring (
          passing r n t calls w features (
            hand_over r n t calls w features
              (with_channel r n t calls w features s id fresh)
              (rung r t w context' (call_of connection' params q, done))))
  unfolding send_message lookup
  handed-Offers s q id fresh context' params ring law user =
      let tx' = (t.message_tx.send s.message_sender ring).0 in
      let call = call_of (record { sender = tx'; receiver = fresh.channel.1 }) params q in
      let same = text_eq_refl id in
      elim (Bool-cases (t.message_tx.send s.message_sender ring).1) [
        | inr lost ↦ rw (lost, same) (refl, refl, refl, inr (refl, refl))
        | inl done ↦ elim (Bool-cases (calls.send s.incoming_call_sender call).1) [
          | inl taken ↦
              rw (done, taken, same)
                (refl, refl, refl, inl (refl, law.send_ok _ ring done, user.send_ok _ call taken))
          | inr gone ↦
              rw (done, gone, same) (refl, refl, refl, inr (refl, user.send_failed _ call gone))
        ]
      ]

  one_round :
      (x : Round) → go_on r n t calls w features x (λ s'. run r n t calls w features s' []) ≡ x
  unfolding run
  one_round (s', none) = refl
  one_round (s', some o) = refl

  -- An INVITE with a Via and a well-formed CSeq, under a call id that no call has, whose
  -- parameters can be read, opens the channel of the call id in one round of the socket's loop,
  -- which writes nothing itself. Then either one 180 response goes to the socket's own channel,
  -- the call with those parameters, that request and the two ends of its connection is handed
  -- over to the user behind the calls before, and the loop goes on; or a send has failed, the
  -- loop ends in that error, and no call is handed over. It assumes the laws of the two sending
  -- halves and of the message types.
  pub invite_offered :
      (s : Sock r n t calls) (reader : n.Reader) (q : Request) (id : Text) (fresh : Fresh t)
      (context' : SipContext) (params : SessionParameters) (v : Text) (k : ℕ) (m : Method)
      → IsRsip r
      → IsSender t.message_tx
      → IsSender calls
      → n.next s.sip_message_reader ≡ (reader, some (ok (request q)))
      → q.method ≡ invite
      → r.find_header Sip.call_id q.headers ≡ some id
      → channel_of r n t calls s id ≡ none
      → from_request r w features s.sip_context q fresh.uuid ≡ (context', ok params)
      → r.find_header via q.headers ≡ some v
      → r.find_header cseq q.headers ≡ some (r.cseq_text k m)
      → let (s', o) = run r n t calls w features s ((read_ready, fresh) ∷ []) in
        let ring = response (reply r t w ringing params v (r.cseq_text k m)) in
        (s'.sip_context ≡ context')
        × (s'.stream_write ≡ s.stream_write)
        × (channel_of r n t calls s' id ≡ some fresh.channel.0)
        × (((o ≡ none)
              × (t.message_tx.sent s'.message_sender
                  ≡ t.message_tx.sent s.message_sender ++ ring ∷ [])
              × (calls.sent s'.incoming_call_sender
                  ≡ calls.sent s.incoming_call_sender
                    ++ call_of
                        (record { sender = s'.message_sender; receiver = fresh.channel.1 })
                        params
                        q
                      ∷ []))
            ⊎ ((o ≡ some (err send_failed))
                × (calls.sent s'.incoming_call_sender ≡ calls.sent s.incoming_call_sender)))
  unfolding run round
  invite_offered s reader q id fresh context' params v k m laws law user e i h none_yet read hv hc =
      let s0 = record s { sip_message_reader = reader } in
      let ring = response (reply r t w ringing params v (r.cseq_text k m)) in
      rw
        (
          e,
          unrouted r n t calls w features s0 q id h none_yet,
          handled_lem s0 q id fresh context' params v k m laws i h none_yet read hv hc,
        )
        (subst (Offers s q id context' params fresh ring) (sym (one_round _))
          (handed-Offers s0 q id fresh context' params ring law user))
