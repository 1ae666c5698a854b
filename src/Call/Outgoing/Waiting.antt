-- ===== src/Call/Outgoing/Waiting.antt =====
-- What the wait for an answer in src/call/outgoing_call.rs comes to, whatever arrives before it.
use simple_sip_rs.Prelude.{
  ℕ, zero, suc, ◌<◌, ◌≡◌, refl, Bool, true, false, List, [], ◌∷◌, ◌++◌, Option, none, some, length,
  Outcome, ok, err, channel_closed, arith, if◌then◌else◌,
}
use simple_sip_rs.Channels.{IsReceiver}
use simple_sip_rs.Sip.{
  Rsip, invite, StatusCode, status_ok, trying, ringing, session_progress, unauthorized, busy_here,
  busy_everywhere, service_unavailable, temporarily_unavailable, other_status, Response, SipMessage,
  request, response,
}
use simple_sip_rs.Sdp.{WebrtcSdp}
use simple_sip_rs.SipProto.Register.{Digest}
use simple_sip_rs.Call.Runtime
use simple_sip_rs.Call.Runtime.{Runtime, CallConnection}
use simple_sip_rs.Call.Outgoing.{PeekOutgoingCallResponse, accepted, rejected, OutgoingCall, is_ok}
use simple_sip_rs.Call.Outgoing.Answer.{
  method_of, by_status, handle_response, receive, take_message, peek_call_response,
}

-- The codes that end the wait, and those that are passed over; 401 is neither.
abbrev pub is_final : StatusCode → Bool
is_final status_ok = true
is_final busy_here = true
is_final busy_everywhere = true
is_final service_unavailable = true
is_final temporarily_unavailable = true
is_final _ = false

abbrev pub is_passed : StatusCode → Bool
is_passed trying = true
is_passed ringing = true
is_passed session_progress = true
is_passed (other_status n) = true
is_passed _ = false

module _ (r : Rsip) (t : Runtime) (w : WebrtcSdp) (d : Digest) where
  -- A request, or a response to the `INVITE` whose code is passed over.
  abbrev pub IsIgnored : SipMessage → Type 0
  IsIgnored (request q) = Unit {0}
  IsIgnored (response res) =
      (method_of r t w d res.headers ≡ ok invite) × (is_passed res.status_code ≡ true)

  abbrev pub AllIgnored : List SipMessage → Type 0
  AllIgnored [] = Unit {0}
  AllIgnored (m ∷ ms) = IsIgnored m × AllIgnored ms

  -- What the call is going to receive before its channel closes.
  abbrev pub arrivals : OutgoingCall t → List SipMessage
  arrivals c = t.message_rx.arrivals c.call_connection.receiver

  passed_lem :
      (s : StatusCode) (c : OutgoingCall t) (res : Response)
      → is_passed s ≡ true
      → by_status r t w d s c res ≡ (c, ok tt)
  unfolding by_status
  passed_lem trying c res e = refl
  passed_lem ringing c res e = refl
  passed_lem session_progress c res e = refl
  passed_lem (other_status n) c res e = refl
  passed_lem status_ok c res e = absurd (ground arith)
  passed_lem busy_here c res e = absurd (ground arith)
  passed_lem busy_everywhere c res e = absurd (ground arith)
  passed_lem service_unavailable c res e = absurd (ground arith)
  passed_lem temporarily_unavailable c res e = absurd (ground arith)
  passed_lem unauthorized c res e = absurd (ground arith)

  final_lem :
      (s : StatusCode) (c : OutgoingCall t) (res : Response)
      → is_final s ≡ true
      → by_status r t w d s c res ≡ (record c { response = some res }, ok tt)
  unfolding by_status
  final_lem status_ok c res e = refl
  final_lem busy_here c res e = refl
  final_lem busy_everywhere c res e = refl
  final_lem service_unavailable c res e = refl
  final_lem temporarily_unavailable c res e = refl
  final_lem trying c res e = absurd (ground arith)
  final_lem ringing c res e = absurd (ground arith)
  final_lem session_progress c res e = absurd (ground arith)
  final_lem (other_status n) c res e = absurd (ground arith)
  final_lem unauthorized c res e = absurd (ground arith)

  abbrev Peek : Type 0
  Peek = OutgoingCall t × Option (Outcome PeekOutgoingCallResponse)

  pub ignored_lem :
      (m : SipMessage) (c : OutgoingCall t) (again : OutgoingCall t → Peek)
      → IsIgnored m
      → c.response ≡ none
      → receive r t w d (c, some m) again ≡ again c
  unfolding handle_response
  ignored_lem (request q) c again i e = refl
  ignored_lem (response res) c again i e = rw (i.0, passed_lem res.status_code c res i.1, e)

  final_answer :
      (res : Response) (c : OutgoingCall t) (again : OutgoingCall t → Peek)
      → method_of r t w d res.headers ≡ ok invite
      → is_final res.status_code ≡ true
      → receive r t w d (c, some (response res)) again ≡ (
        record c { response = some res },
        some (ok (if is_ok res.status_code then accepted else rejected res.status_code)),
      )
  unfolding handle_response
  final_answer res c again m f = rw (m, final_lem res.status_code c res f)

  -- A receipt takes the first arrival, and touches the receiver only.
  pub take_lem :
      (c : OutgoingCall t) (m : SipMessage) (ms : List SipMessage)
      → IsReceiver t.message_rx
      → arrivals c ≡ m ∷ ms
      → (take_message r t w d c ≡ ((take_message r t w d c).0, some m))
        × (arrivals (take_message r t w d c).0 ≡ ms)
  unfolding Runtime.recv
  take_lem c m ms law e = let n = law.recv_next c.call_connection.receiver m ms e in (rw n.0, n.1)

  -- The call is as it was but for its receiver and the answer.
  abbrev KeepsAnswer : OutgoingCall t → Response → Peek → Type 0
  KeepsAnswer c res p =
      (p.1 ≡ some (ok (if is_ok res.status_code then accepted else rejected res.status_code)))
      × (p.0.response ≡ some res)
      × (p.0.call_connection.sender ≡ c.call_connection.sender)
      × (p.0.cseq ≡ c.cseq)

  -- With enough fuel the wait for an answer ends at the first response to the INVITE with one of
  -- the codes 200, 486, 600, 503 and 480, whatever requests and passed-over responses come before
  -- it: accepted for 200, rejected with its code else; the answer is kept, nothing is sent, and
  -- the sequence number stays.
  pub peek_answered :
      (fuel : ℕ) (c : OutgoingCall t) (skipped rest : List SipMessage) (res : Response)
      → IsReceiver t.message_rx
      → arrivals c ≡ skipped ++ response res ∷ rest
      → AllIgnored skipped
      → method_of r t w d res.headers ≡ ok invite
      → is_final res.status_code ≡ true
      → c.response ≡ none
      → length skipped < fuel
      → KeepsAnswer c res (peek_call_response r t w d fuel c)
  unfolding peek_call_response Runtime.recv
  peek_answered zero c skipped rest res law e i m f n l = absurd (omega arith)
  peek_answered (suc fuel) c [] rest res law e i m f n l =
      let taken = take_lem c (response res) rest law e in
      rw (taken.0, final_answer res (take_message r t w d c).0 _ m f) (refl, refl, refl, refl)
  peek_answered (suc fuel) c (x ∷ skipped) rest res law e i m f n l =
      let taken = take_lem c x (skipped ++ response res ∷ rest) law e in
      rw (taken.0, ignored_lem x (take_message r t w d c).0 _ i.0 n)
        (peek_answered fuel (take_message r t w d c).0 skipped rest res law taken.1 i.1 m f n
          (omega arith))

  -- With enough fuel, where the channel closes after messages that are all passed over, the wait
  -- ends in the error of a closed channel.
  pub peek_closed :
      (fuel : ℕ) (c : OutgoingCall t) (skipped : List SipMessage)
      → IsReceiver t.message_rx
      → arrivals c ≡ skipped
      → AllIgnored skipped
      → c.response ≡ none
      → length skipped < fuel
      → (peek_call_response r t w d fuel c).1 ≡ some (err channel_closed)
  unfolding peek_call_response Runtime.recv
  peek_closed zero c skipped law e i n l = absurd (omega arith)
  peek_closed (suc fuel) c [] law e i n l = rw (law.recv_end c.call_connection.receiver e)
  peek_closed (suc fuel) c (x ∷ skipped) law e i n l =
      let taken = take_lem c x skipped law e in
      rw (taken.0, ignored_lem x (take_message r t w d c).0 _ i.0 n)
        (peek_closed fuel (take_message r t w d c).0 skipped law taken.1 i.1 n (omega arith))
