-- ===== src/Connection/Socket/Routing.antt =====
-- Where the messages of src/connection/sip_socket.rs go.
use simple_sip_rs.Prelude.{
  ◌≡◌, ◌≢◌, refl, ◌⊎◌, inl, inr, true, false, [], ◌∷◌, ◌++◌, Option, none, some, Text, Bool-cases,
}
use simple_sip_rs.Channels.{Sender, IsSender}
use simple_sip_rs.Sip
use simple_sip_rs.Sip.{Rsip, SipMessage, message_headers}
use simple_sip_rs.Call.Runtime.{Runtime}
use simple_sip_rs.Call.Incoming.{IncomingCall}
use simple_sip_rs.Connection.SocketData.{
  lookup, lookup-update, lookup-remove, lookup-update_other, lookup-remove_other,
}
use simple_sip_rs.Connection.Socket.{Network}
use simple_sip_rs.Connection.Socket.Messages.{Sock, handle_call_message}

module _ (r : Rsip) (n : Network) (t : Runtime) (calls : Sender (IncomingCall t)) where
  -- The channel of a call id.
  abbrev pub channel_of : Sock r n t calls → Text → Option t.message_tx.State
  channel_of s id = lookup id s.socket_data.call_channels

  -- A message with the call id of a known call goes into that call's channel, behind what was
  -- sent before, if the channel takes it, and else the channel is dropped; it counts as taken,
  -- the channels of the other calls stay as they were, and nothing is written to the server.
  pub route_outcome :
      (s : Sock r n t calls) (m : SipMessage) (id : Text) (tx : t.message_tx.State)
      → IsSender t.message_tx
      → r.find_header Sip.call_id (message_headers m) ≡ some id
      → channel_of s id ≡ some tx
      → let (s', taken) = handle_call_message r n t calls s m in
        (taken ≡ true)
        × (s'.stream_write ≡ s.stream_write)
        × ((other : Text) → id ≢ other → channel_of s' other ≡ channel_of s other)
        × ((((t.message_tx.send tx m).1 ≡ true)
              × ((tx' : t.message_tx.State) × (channel_of s' id ≡ some tx')
                  × (t.message_tx.sent tx' ≡ t.message_tx.sent tx ++ m ∷ [])))
            ⊎ (((t.message_tx.send tx m).1 ≡ false) × (channel_of s' id ≡ none)))
  unfolding handle_call_message
  route_outcome s m id tx law h k =
      rw (h, k)
        (elim (Bool-cases (t.message_tx.send tx m).1) [
          | inl done ↦ rw done (
            refl,
            refl,
            λ other d. lookup-update_other id other _ s.socket_data.call_channels d,
            inl (
              refl,
              (
                (t.message_tx.send tx m).0,
                lookup-update id tx _ s.socket_data.call_channels k,
                law.send_ok tx m done,
              ),
            ),
          )
          | inr lost ↦ rw lost (
            refl,
            refl,
            λ other d. lookup-remove_other id other s.socket_data.call_channels d,
            inr (refl, lookup-remove id s.socket_data.call_channels),
          )
        ])
