-- ===== src/Call/Incoming/Search.antt =====
-- The search for a queued `CANCEL` in src/call/incoming_call.rs.
use simple_sip_rs.Prelude.{
  ℕ, zero, suc, ◌<◌, ◌≡◌, refl, ◌⊎◌, inl, inr, true, false, List, [], ◌∷◌, ◌++◌, Option, none, some,
  length, ok, arith,
}
use simple_sip_rs.Channels.{IsReceiver, TryRecv, received, empty, disconnected}
use simple_sip_rs.Sip.{Rsip, Request, SipMessage, request, response}
use simple_sip_rs.Sdp.{WebrtcSdp}
use simple_sip_rs.Call.Runtime
use simple_sip_rs.Call.Runtime.{Runtime, send_message}
use simple_sip_rs.Call.Incoming.{IncomingCall, is_cancel, seek, get_cancel_request}

module _ (r : Rsip) (t : Runtime) (w : WebrtcSdp) where
  -- A response, or a request of another method.
  abbrev pub IsOther : SipMessage → Type 0
  IsOther (request q) = is_cancel q.method ≡ false
  IsOther (response res) = Unit {0}

  abbrev pub AllOther : List SipMessage → Type 0
  AllOther [] = Unit {0}
  AllOther (m ∷ ms) = IsOther m × AllOther ms

  -- What is in the call's channel, and what the call has sent.
  abbrev pub queued : IncomingCall t → List SipMessage
  queued c = t.message_rx.queued c.call_connection.receiver

  abbrev pub messages : IncomingCall t → List SipMessage
  messages c = t.message_tx.sent c.call_connection.sender

  -- The call with another state of its receiver.
  abbrev pub at : IncomingCall t → t.message_rx.State → IncomingCall t
  at c rx = record c { call_connection = record c.call_connection { receiver = rx } }

  abbrev Finds : IncomingCall t → ℕ → Option Request → List SipMessage → Type 0
  Finds c fuel found rest =
      (rx : t.message_rx.State) × (get_cancel_request r t w fuel c ≡ (at c rx, some found))
      × (t.message_rx.queued rx ≡ rest)

  skip_other :
      (m : SipMessage) (c : IncomingCall t)
      (again : IncomingCall t → IncomingCall t × Option (Option Request))
      → IsOther m
      → seek r t w (c, ok (some m)) again ≡ again c
  skip_other (request q) c again o = rw o
  skip_other (response res) c again o = refl

  take_other :
      (fuel : ℕ) (c : IncomingCall t) (m : SipMessage) (ms : List SipMessage)
      → IsReceiver t.message_rx
      → queued c ≡ m ∷ ms
      → IsOther m
      → (rx : t.message_rx.State) × (get_cancel_request r t w (suc fuel) c
          ≡ get_cancel_request r t w fuel (at c rx))
        × (queued (at c rx) ≡ ms)
  unfolding get_cancel_request Runtime.try_recv
  take_other fuel c m ms law e o =
      let n = law.try_recv_next c.call_connection.receiver m ms e in
      let rx = (t.message_rx.try_recv c.call_connection.receiver).0 in
      (rx, rw (n.0, skip_other m (at c rx) _ o), n.1)

  -- The search finds the first `CANCEL` in the channel, whatever is before it.
  pub get_cancel-found :
      (fuel : ℕ) (c : IncomingCall t) (skipped rest : List SipMessage) (q : Request)
      → IsReceiver t.message_rx
      → queued c ≡ skipped ++ request q ∷ rest
      → AllOther skipped
      → is_cancel q.method ≡ true
      → length skipped < fuel
      → Finds c fuel (some q) rest
  unfolding get_cancel_request Runtime.try_recv
  get_cancel-found zero c skipped rest q law e o k l = absurd (omega arith)
  get_cancel-found (suc fuel) c [] rest q law e o k l =
      let n = law.try_recv_next c.call_connection.receiver (request q) rest e in
      ((t.message_rx.try_recv c.call_connection.receiver).0, rw (n.0, k), n.1)
  get_cancel-found (suc fuel) c (m ∷ skipped) rest q law e o k l =
      let (rx, step, e') = take_other fuel c m (skipped ++ request q ∷ rest) law e o.0 in
      let (rx', found, left) =
        get_cancel-found fuel (at c rx) skipped rest q law e' o.1 k (omega arith) in
      (rx', rw step found, left)

  tried_cases :
      (x : TryRecv SipMessage)
      → ((m : SipMessage) × (x ≡ received m)) ⊎ ((x ≡ empty) ⊎ (x ≡ disconnected))
  tried_cases (received m) = inl (m, refl)
  tried_cases empty = inr (inl refl)
  tried_cases disconnected = inr (inr refl)

  -- Where there is none, the search empties the channel.
  pub get_cancel-none :
      (fuel : ℕ) (c : IncomingCall t) (skipped : List SipMessage)
      → IsReceiver t.message_rx
      → queued c ≡ skipped
      → AllOther skipped
      → length skipped < fuel
      → (rx : t.message_rx.State) × (get_cancel_request r t w fuel c ≡ (at c rx, some none))
  unfolding get_cancel_request Runtime.try_recv
  get_cancel-none zero c skipped law e o l = absurd (omega arith)
  get_cancel-none (suc fuel) c [] law e o l =
      let rx = c.call_connection.receiver in
      (
        (t.message_rx.try_recv rx).0,
        elim (tried_cases (t.message_rx.try_recv rx).1) [
          | inl (m, got) ↦ absurd (law.try_recv_end rx m e got)
          | inr (inl e') ↦ rw e'
          | inr (inr e') ↦ rw e'
        ],
      )
  get_cancel-none (suc fuel) c (m ∷ skipped) law e o l =
      let (rx, step, e') = take_other fuel c m skipped law e o.0 in
      let (rx', found) = get_cancel-none fuel (at c rx) skipped law e' o.1 (omega arith) in
      (rx', rw step found)
