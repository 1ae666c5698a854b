-- ===== src/Manager/Invited.antt =====
-- What placing a call in src/manager.rs does, from the user's text to the `INVITE` that is sent.
use simple_sip_rs.Prelude.{
  ◌≡◌, refl, ap, ◌∙◌, ◌⊎◌, inl, inr, [], ◌∷◌, ◌++◌, none, some, Text, codes, ok, err, send_failed,
  text_eq_refl, Bool-cases,
}
use simple_sip_rs.Context.{SipContext, get_next_udp_port}
use simple_sip_rs.Config.Headers.{get_own_uri, get_own_via}
use simple_sip_rs.Channels.{Sender, IsSender, Receiver}
use simple_sip_rs.Sip.{Rsip, request}
use simple_sip_rs.Sdp.{WebrtcSdp, IsWebrtcSdp}
use simple_sip_rs.SipProto.Sdp.{bare_session}
use simple_sip_rs.SipProto.Sdp.Offer.{offered_media, generate_sdp_new-offered_media}
use simple_sip_rs.Media.Features.{Features}
use simple_sip_rs.Call.Runtime.{Runtime, send_message}
use simple_sip_rs.Call.Incoming.{IncomingCall}
use simple_sip_rs.Call.Outgoing.{OutgoingCall, generate_invite, send_invite, created, try_from}
use simple_sip_rs.Call.Ongoing.{Tasks}
use simple_sip_rs.Connection.SocketData.{lookup, create_call_channel}
use simple_sip_rs.Manager.{InnerSipManager, SipManager}
use simple_sip_rs.Manager.Placing.{
  destination, Ids, inner_call, with_channel, invited, placed, through, call,
}

module _ (r : Rsip) (t : Runtime) (w : WebrtcSdp) (features : Features) (k : Tasks) where
  abbrev Inner : Type 0
  Inner = InnerSipManager t k

  -- The call before its `INVITE` is sent.
  abbrev pub prepared : Ids → t.message_rx.State → SipContext → Inner → Text → OutgoingCall t
  prepared ids rx context i to =
      let (context', port) = get_next_udp_port context in
      record {
        call_connection = record { sender = i.message_sender; receiver = rx };
        call_id = ids.call_id;
        remote_uri = destination r t w features k context.config to;
        cseq = 1234;
        own_via = get_own_via r context'.config ids.branch_id;
        local_call_session_params = record {
          uri = get_own_uri r context'.config;
          tag = codes "tt" ++ ids.tag_id;
          sdp = record (bare_session context'.config) { media = offered_media features port ∷ [] };
          port = port;
        };
        config = context'.config;
        response = none;
      }

  try_from_lem :
      (ids : Ids) (rx : t.message_rx.State) (context : SipContext) (i : Inner) (to : Text)
      → IsWebrtcSdp w
      → try_from r t w features context
          (record { sender = i.message_sender; receiver = rx })
          ids.call_id
          (destination r t w features k context.config to)
          ids.tag_id
          ids.branch_id
        ≡ (
          (get_next_udp_port context).0,
          created r t w (send_invite r t w (prepared ids rx context i to)),
        )
  unfolding try_from
  try_from_lem ids rx context i to law =
      let (context', port) = get_next_udp_port context in
      rw (generate_sdp_new-offered_media law features context'.config port)

  fresh_lem :
      (ids : Ids) (ends : t.message_tx.State × t.message_rx.State) (i : Inner)
      → lookup ids.call_id i.socket_data.call_channels ≡ none
      → create_call_channel i.socket_data ids.call_id ends ≡ (
        record { call_channels = (ids.call_id, ends.0) ∷ i.socket_data.call_channels },
        ok ends.1,
      )
  unfolding create_call_channel
  fresh_lem ids ends i e = rw e

  module _ (calls : Sender (IncomingCall t)) (rx : Receiver (IncomingCall t)) where
    abbrev pub opened : Ids → t.message_tx.State → Inner → Inner
    opened ids tx i = record i {
      socket_data = record { call_channels = (ids.call_id, tx) ∷ i.socket_data.call_channels };
    }

    pub call_lem :
        (ids : Ids) (ends : t.message_tx.State × t.message_rx.State) (m : SipManager t calls rx k)
        (i : Inner) (to : Text)
        → IsWebrtcSdp w
        → m.inner ≡ some i
        → lookup ids.call_id i.socket_data.call_channels ≡ none
        → call r t w features k calls rx ids ends m to
          ≡ placed r t w features k calls rx m (
              invited r t w features k (opened ids ends.0 i) (
                (get_next_udp_port m.context).0,
                created r t w (send_invite r t w (prepared ids ends.1 m.context i to)),
              ))
    unfolding call inner_call
    call_lem ids ends m i to law e fresh =
        ap (through r t w features k calls rx ids ends m to) e
        ∙ ap
            (λ p.
              placed r t w features k calls rx m
                (with_channel r t w features k ids m.context i to p))
            (fresh_lem ids ends i fresh)
        ∙ ap
            (λ p.
              placed r t w features k calls rx m (invited r t w features k (opened ids ends.0 i) p))
            (try_from_lem ids ends.1 m.context i to law)

    -- Where a session is connected and no call has the call id that is drawn, placing a call
    -- takes the next RTP port and opens the channel of the call id. Then either the call is
    -- returned, with that id and port, and the INVITE stands behind what was sent to the socket
    -- before; or the error of a closed channel is returned and nothing is sent. It assumes the
    -- laws of the channel to the socket, and that webrtc_sdp adds the codecs and attributes that
    -- it is given.
    pub call_placed :
        (ids : Ids) (ends : t.message_tx.State × t.message_rx.State) (m : SipManager t calls rx k)
        (i : Inner) (to : Text)
        → IsWebrtcSdp w
        → IsSender t.message_tx
        → m.inner ≡ some i
        → lookup ids.call_id i.socket_data.call_channels ≡ none
        → let (m', o) = call r t w features k calls rx ids ends m to in
          (m'.context ≡ (get_next_udp_port m.context).0)
          × ((i' : Inner) × (m'.inner ≡ some i')
              × (lookup ids.call_id i'.socket_data.call_channels ≡ some ends.0)
              × (((c : OutgoingCall t) × (o ≡ ok c)
                    × (c.call_id ≡ ids.call_id)
                    × (c.local_call_session_params.port ≡ m.context.next_udp_port)
                    × (t.message_tx.sent i'.message_sender
                        ≡ t.message_tx.sent i.message_sender
                          ++ request (generate_invite r t w (prepared ids ends.1 m.context i to))
                            ∷ []))
                  ⊎ ((o ≡ err send_failed) × (i'.message_sender ≡ i.message_sender))))
    unfolding send_invite send_message lookup get_next_udp_port
    call_placed ids ends m i to law sender e fresh =
        let q = request (generate_invite r t w (prepared ids ends.1 m.context i to)) in
        rw (call_lem ids ends m i to law e fresh)
          (elim (Bool-cases (t.message_tx.send i.message_sender q).1) [
            | inl done ↦ rw done (
              refl,
              (
                opened ids ends.0
                    (record i { message_sender = (t.message_tx.send i.message_sender q).0 }),
                refl,
                rw (text_eq_refl ids.call_id),
                inl (
                  record (prepared ids ends.1 m.context i to) {
                    call_connection = record {
                      sender = (t.message_tx.send i.message_sender q).0;
                      receiver = ends.1;
                    };
                  },
                  refl,
                  refl,
                  refl,
                  sender.send_ok _ q done,
                ),
              ),
            )
            | inr lost ↦
                rw lost (
                  refl,
                  (opened ids ends.0 i, refl, rw (text_eq_refl ids.call_id), inr (refl, refl)),
                )
          ])
