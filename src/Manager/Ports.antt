-- ===== src/Manager/Ports.antt =====
-- The RTP ports of the calls that are placed one after the other through src/manager.rs.
use simple_sip_rs.Prelude.{
  ℕ, zero, suc, ◌+◌, ◌*◌, ◌%◌, ◌<◌, ◌≡◌, refl, sym, ap, ◌∙◌, inl, inr, List, [], ◌∷◌, length, none,
  some, arith, Text, Outcome, ok, ok-injective,
}
use simple_sip_rs.Config.{Config}
use simple_sip_rs.Context.{SipContext, from_config, get_next_udp_port}
use simple_sip_rs.Context.Ports.{after, port_of_call, port_count, port_of_call_lem}
use simple_sip_rs.Channels.{Sender, IsSender, Receiver}
use simple_sip_rs.Sip.{Rsip}
use simple_sip_rs.Sdp.{WebrtcSdp, IsWebrtcSdp}
use simple_sip_rs.Media.Features.{Features}
use simple_sip_rs.Call.Runtime.{Runtime}
use simple_sip_rs.Call.Incoming.{IncomingCall}
use simple_sip_rs.Call.Outgoing.{OutgoingCall}
use simple_sip_rs.Call.Ongoing.{Tasks}
use simple_sip_rs.Connection.SocketData.{lookup}
use simple_sip_rs.Manager.{InnerSipManager, SipManager}
use simple_sip_rs.Manager.Placing.{Ids, call}
use simple_sip_rs.Manager.Invited.{call_placed}

after-next : (n : ℕ) (c : SipContext) → after n (get_next_udp_port c).0 ≡ after (suc n) c
unfolding after
after-next zero c = refl
after-next (suc n) c = ap (λ (d : SipContext). (get_next_udp_port d).0) (after-next n c)

module _ (r : Rsip) (t : Runtime) (w : WebrtcSdp) (features : Features) (k : Tasks)
    (calls : Sender (IncomingCall t)) (rx : Receiver (IncomingCall t)) where
  -- What a call is placed with: its identifiers, its channel and whom it calls.
  pub record Placement : Type 0 where
    pub ids : Ids
    pub ends : t.message_tx.State × t.message_rx.State
    pub to : Text

  abbrev Manager : Type 0
  Manager = SipManager t calls rx k

  abbrev pub place : Placement → Manager → Manager × Outcome (OutgoingCall t)
  place p m = call r t w features k calls rx p.ids p.ends m p.to

  unfoldable pub place_all : List Placement → Manager → Manager
  place_all [] m = m
  place_all (p ∷ ps) m = place_all ps (place p m).0

  -- A session is connected, and no call has the identifier.
  abbrev pub IsFresh : Placement → Manager → Type 0
  IsFresh p m =
      (i : InnerSipManager t k) × (m.inner ≡ some i)
      × (lookup p.ids.call_id i.socket_data.call_channels ≡ none)

  abbrev pub AllFresh : List Placement → Manager → Type 0
  AllFresh [] m = Unit {0}
  AllFresh (p ∷ ps) m = IsFresh p m × AllFresh ps (place p m).0

  context-place_all :
      (ps : List Placement) (m : Manager)
      → IsWebrtcSdp w
      → IsSender t.message_tx
      → AllFresh ps m
      → (place_all ps m).context ≡ after (length ps) m.context
  unfolding place_all after
  context-place_all [] m law sender fresh = refl
  context-place_all (p ∷ ps) m law sender ((i, connected, new), rest) =
      let (next, _) =
        call_placed r t w features k calls rx p.ids p.ends m i p.to law sender connected new in
      context-place_all ps (place p m).0 law sender rest
      ∙ ap (after (length ps)) next
      ∙ after-next (length ps) m.context

  -- Where the manager's context is made from a valid configuration whose range of ports ends
  -- below 65534, a session is connected, every call id that is drawn is new, and n calls have
  -- been placed before, whatever came of them: a call that is placed has the port start + 2 * (n
  -- mod k), for the k ports of the range. It assumes the laws of the channel to the socket, and
  -- that webrtc_sdp adds the codecs and attributes that it is given.
  pub nth_call_port :
      (config : Config) (m : Manager) (ps : List Placement) (p : Placement) (c : OutgoingCall t)
      → IsWebrtcSdp w
      → IsSender t.message_tx
      → from_config config ≡ ok m.context
      → config.rtp_port_end < 65534
      → AllFresh ps m
      → IsFresh p (place_all ps m)
      → (place p (place_all ps m)).1 ≡ ok c
      → c.local_call_session_params.port
        ≡ config.rtp_port_start + 2 * (length ps % port_count config)
  unfolding port_of_call get_next_udp_port
  nth_call_port config m ps p c law sender made below fresh (i, connected, new) placed =
      let (next, (i', _, _, outcome)) =
        call_placed r t w features k calls rx p.ids p.ends (place_all ps m) i p.to law sender
          connected new in
      elim outcome [
        | inl (c', e, _, port, _) ↦
            let same : c ≡ c' = ok-injective (sym placed ∙ e) in
            ap (λ (d : OutgoingCall t). d.local_call_session_params.port) same
            ∙ port
            ∙ ap (λ (d : SipContext). d.next_udp_port) (context-place_all ps m law sender fresh)
            ∙ port_of_call_lem config m.context (length ps) made below
        | inr (e, _) ↦ absurd (ground (arith, sym placed ∙ e))
      ]
