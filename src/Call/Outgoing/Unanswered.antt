-- ===== src/Call/Outgoing/Unanswered.antt =====
-- A wait in src/call/outgoing_call.rs that is broken off, and the `CANCEL` that can follow it.
use simple_sip_rs.Prelude.{◌≡◌, refl, ◌∙◌, List, [], ◌∷◌, ◌++◌, none, length}
use simple_sip_rs.Channels.{IsReceiver}
use simple_sip_rs.Sip.{Rsip, SipMessage}
use simple_sip_rs.Sdp.{WebrtcSdp}
use simple_sip_rs.SipProto.Register.{Digest}
use simple_sip_rs.Call.Runtime as Runtime
use simple_sip_rs.Call.Runtime.{Runtime}
use simple_sip_rs.Call.Outgoing.{OutgoingCall, get_base_headers, generate_cancel}
use simple_sip_rs.Call.Outgoing.Answer.{take_message, peek_call_response}
use simple_sip_rs.Call.Outgoing.Waiting.{AllIgnored, arrivals, take_lem, ignored_lem}

module _ (r : Rsip) (t : Runtime) (w : WebrtcSdp) (d : Digest) where
  -- A receipt changes neither what the call would cancel nor what it has sent.
  take-generate_cancel :
      (c : OutgoingCall t)
      → generate_cancel r t w (take_message r t w d c).0 ≡ generate_cancel r t w c
  unfolding generate_cancel get_base_headers Runtime.recv
  take-generate_cancel c = refl

  take-sender :
      (c : OutgoingCall t)
      → (take_message r t w d c).0.call_connection.sender ≡ c.call_connection.sender
  unfolding Runtime.recv
  take-sender c = refl

  take-response : (c : OutgoingCall t) → (take_message r t w d c).0.response ≡ c.response
  unfolding Runtime.recv
  take-response c = refl

  -- After messages that are passed over the wait goes on, and the call is as before.
  pub peek_waits :
      (c : OutgoingCall t) (skipped rest : List SipMessage)
      → IsReceiver t.message_rx
      → arrivals r t w d c ≡ skipped ++ rest
      → AllIgnored r t w d skipped
      → c.response ≡ none
      → let (c', o) = peek_call_response r t w d (length skipped) c in
        (o ≡ none)
        × (generate_cancel r t w c' ≡ generate_cancel r t w c)
        × (c'.call_connection.sender ≡ c.call_connection.sender)
  unfolding peek_call_response
  peek_waits c [] rest law e i n = (refl, refl, refl)
  peek_waits c (x ∷ skipped) rest law e i n =
      let taken = take_lem r t w d c x (skipped ++ rest) law e in
      let c1 = (take_message r t w d c).0 in
      let n1 = take-response c ∙ n in
      let (waits, same, sender) = peek_waits c1 skipped rest law taken.1 i.1 n1 in
      rw
        (
          taken.0,
          ignored_lem r t w d x c1 (λ c'. peek_call_response r t w d (length skipped) c') i.0 n1,
        )
        (waits, same ∙ take-generate_cancel c, sender ∙ take-sender c)
