-- ===== src/Connection/Socket/Delivered.antt =====
-- What one round of the loop of src/connection/sip_socket.rs puts into the channel of a call.
use simple_sip_rs.Prelude.{
  ◌≡◌, ◌≢◌, refl, sym, ap, ◌∙◌, inl, inr, Bool, true, false, List, [], ◌∷◌, ◌++◌, Option, none,
  some, Text, text_eq, text_eq_refl, eq_of_text_eq, Outcome, ok, err, panic, Option-cases,
  Bool-cases, if◌then◌else◌,
}
use mathlib.Core.List.{append-nil}
use simple_sip_rs.Channels.{Sender, IsSender}
use simple_sip_rs.Sip
use simple_sip_rs.Sip.{Rsip, SipMessage, message_headers}
use simple_sip_rs.Sdp.{WebrtcSdp}
use simple_sip_rs.Media.Features.{Features}
use simple_sip_rs.Call.Runtime.{Runtime}
use simple_sip_rs.Call.Incoming.{IncomingCall}
use simple_sip_rs.Connection.SocketData.{lookup, lookup-update}
use simple_sip_rs.Connection.Socket.{Network, send_message}
use simple_sip_rs.Connection.Socket.Messages.{
  Sock, Fresh, handle_call_message, handle_message, passing, unless_taken, on_read, on_outbox,
}
use simple_sip_rs.Connection.Socket.Routing.{channel_of, route_outcome}
use simple_sip_rs.Connection.Socket.Kept.{IsOther, handle_message-SameChannel}

module _ (r : Rsip) where
  abbrev names : Text → Option Text → Bool
  names id none = false
  names id (some other) = text_eq other id

  -- The messages of a call, among others.
  abbrev pub of_call : Text → List SipMessage → List SipMessage
  of_call id [] = []
  of_call id (m ∷ ms) =
      let later = of_call id ms in
      if names id (r.find_header Sip.call_id (message_headers m)) then m ∷ later else later

  pub of_call-append :
      (id : Text) (xs ys : List SipMessage) → of_call id (xs ++ ys) ≡ of_call id xs ++ of_call id ys
  of_call-append id [] ys = refl
  of_call-append id (m ∷ xs) ys =
      elim (Bool-cases (names id (r.find_header Sip.call_id (message_headers m)))) [
        | inl own ↦ rw own (ap (λ (l : List SipMessage). m ∷ l) (of_call-append id xs ys))
        | inr other ↦ rw other (of_call-append id xs ys)
      ]

module _ (r : Rsip) (n : Network) (t : Runtime) (calls : Sender (IncomingCall t)) (w : WebrtcSdp)
    (features : Features) where
  abbrev pub message_of : Option (Outcome SipMessage) → List SipMessage
  message_of (some (ok m)) = m ∷ []
  message_of _ = []

  -- A channel that takes all that it is sent.
  pub record IsOpen (P : t.message_tx.State → Type 0) : Type 0 where
    pub accepts :
        (tx : t.message_tx.State) (m : SipMessage) → P tx → (t.message_tx.send tx m).1 ≡ true
    pub stays : (tx : t.message_tx.State) (m : SipMessage) → P tx → P (t.message_tx.send tx m).0

  module _ {P : t.message_tx.State → Type 0} (is_open : IsOpen P) (law : IsSender t.message_tx)
      (id : Text) where
    -- The call's channel is there, and has been sent these messages more.
    abbrev pub Gets : t.message_tx.State → List SipMessage → Sock r n t calls → Type 0
    Gets tx ms s' =
        (tx' : t.message_tx.State) × (channel_of r n t calls s' id ≡ some tx')
        × P tx'
        × (t.message_tx.sent tx' ≡ t.message_tx.sent tx ++ of_call r id ms)

    pub kept-Gets :
        (s s' : Sock r n t calls) (tx : t.message_tx.State)
        → channel_of r n t calls s id ≡ some tx
        → P tx
        → channel_of r n t calls s' id ≡ channel_of r n t calls s id
        → Gets tx [] s'
    kept-Gets s s' tx e p same = (tx, same ∙ e, p, sym (append-nil (t.message_tx.sent tx)))

    passing-same :
        (s : Sock r n t calls) (o : Outcome (Unit {0}))
        → (passing r n t calls w features (s, o)).0 ≡ s
    passing-same s (ok u) = refl
    passing-same s (err e) = refl
    passing-same s panic = refl

    taken-same :
        (s : Sock r n t calls) (taken : Bool) (m : SipMessage) (fresh : Fresh t)
        → taken ≡ true
        → (unless_taken r n t calls w features (s, taken) m fresh).0 ≡ s
    taken-same s true m fresh h = refl
    taken-same s false m fresh h = cc

    -- A message of the call goes into its channel.
    own-Gets :
        (s : Sock r n t calls) (tx : t.message_tx.State) (m : SipMessage) (fresh : Fresh t)
        → channel_of r n t calls s id ≡ some tx
        → P tx
        → r.find_header Sip.call_id (message_headers m) ≡ some id
        → Gets tx (m ∷ []) (on_read r n t calls w features s (some (ok m)) fresh).0
    unfolding handle_call_message
    own-Gets s tx m fresh e p h =
        let sent = is_open.accepts tx m p in
        rw (h, e, sent, text_eq_refl id)
          (
            (t.message_tx.send tx m).0,
            lookup-update id tx _ s.socket_data.call_channels e,
            is_open.stays tx m p,
            law.send_ok tx m sent,
          )

    -- Any other message leaves it alone.
    unknown-Gets :
        (s : Sock r n t calls) (tx : t.message_tx.State) (m : SipMessage) (fresh : Fresh t)
        → channel_of r n t calls s id ≡ some tx
        → P tx
        → IsOther id (r.find_header Sip.call_id (message_headers m))
        → Gets tx []
            (passing r n t calls w features (handle_message r n t calls w features s m fresh)).0
    unknown-Gets s tx m fresh e p d =
        let (s', o) = handle_message r n t calls w features s m fresh in
        kept-Gets s (passing r n t calls w features (s', o)).0 tx e p (
          ap (λ (x : Sock r n t calls). channel_of r n t calls x id) (passing-same s' o)
          ∙ handle_message-SameChannel r n t calls w features id s m fresh d)

    differs : (other : Text) → text_eq other id ≡ false → other ≢ id
    differs other d same =
        let e : text_eq other id ≡ true = ap (text_eq other) (sym same) ∙ text_eq_refl other in cc

    other-Gets :
        (s : Sock r n t calls) (tx : t.message_tx.State) (m : SipMessage) (fresh : Fresh t)
        (name : Option Text)
        → channel_of r n t calls s id ≡ some tx
        → P tx
        → r.find_header Sip.call_id (message_headers m) ≡ name
        → IsOther id name
        → Gets tx [] (on_read r n t calls w features s (some (ok m)) fresh).0
    unfolding handle_call_message
    other-Gets s tx m fresh none e p h d = rw h (unknown-Gets s tx m fresh e p (rw h tt))
    other-Gets s tx m fresh (some other) e p h d =
        elim (Option-cases (lookup other s.socket_data.call_channels)) [
          | inl absent ↦ rw (h, absent) (unknown-Gets s tx m fresh e p (rw h d))
          | inr (tx', known) ↦
              let routed = route_outcome r n t calls s m other tx' law h known in
              let x = handle_call_message r n t calls s m in
              kept-Gets s (unless_taken r n t calls w features x m fresh).0 tx e p (
                ap (λ (y : Sock r n t calls). channel_of r n t calls y id)
                  (taken-same x.0 x.1 m fresh routed.0)
                ∙ routed.2 id (differs other d))
        ]

    on_message-Gets :
        (s : Sock r n t calls) (tx : t.message_tx.State) (m : SipMessage) (fresh : Fresh t)
        (name : Option Text)
        → channel_of r n t calls s id ≡ some tx
        → P tx
        → r.find_header Sip.call_id (message_headers m) ≡ name
        → Gets tx (m ∷ []) (on_read r n t calls w features s (some (ok m)) fresh).0
    on_message-Gets s tx m fresh none e p h = rw h (other-Gets s tx m fresh none e p h tt)
    on_message-Gets s tx m fresh (some other) e p h = elim (Bool-cases (text_eq other id)) [
      | inr d ↦ rw (h, d) (other-Gets s tx m fresh (some other) e p h d)
      | inl same ↦
          own-Gets s tx m fresh e p (h ∙ ap (λ (x : Text). some x) (eq_of_text_eq other id same))
    ]

    pub on_read-Gets :
        (s : Sock r n t calls) (tx : t.message_tx.State) (x : Option (Outcome SipMessage))
        (fresh : Fresh t)
        → channel_of r n t calls s id ≡ some tx
        → P tx
        → Gets tx (message_of x) (on_read r n t calls w features s x fresh).0
    on_read-Gets s tx none fresh e p = kept-Gets s s tx e p refl
    on_read-Gets s tx (some (ok m)) fresh e p = on_message-Gets s tx m fresh _ e p refl
    on_read-Gets s tx (some (err x)) fresh e p = kept-Gets s s tx e p refl
    on_read-Gets s tx (some panic) fresh e p = kept-Gets s s tx e p refl

    pub on_outbox-Gets :
        (s : Sock r n t calls) (tx : t.message_tx.State) (m : Option SipMessage)
        → channel_of r n t calls s id ≡ some tx
        → P tx
        → Gets tx [] (on_outbox r n t calls w features s m).0
    unfolding send_message
    on_outbox-Gets s tx none e p = kept-Gets s s tx e p refl
    on_outbox-Gets s tx (some m) e p =
        let (s', o) = send_message r n t calls s m in
        kept-Gets s (passing r n t calls w features (s', o)).0 tx e p
          (ap (λ (x : Sock r n t calls). channel_of r n t calls x id) (passing-same s' o))
