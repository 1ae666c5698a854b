-- ===== src/Call/Handler/Farewell.antt =====
-- How a `BYE` that waits in the channel of a call ends the task of src/call/call_handler.rs.
use simple_sip_rs.Prelude.{
  ℕ, suc, ◌<◌, ◌≡◌, refl, ◌∙◌, inl, inr, true, false, List, [], ◌∷◌, ◌++◌, some, Text, arith,
  length, Each, Bool-cases,
}
use simple_sip_rs.Channels.{IsSender, IsReceiver}
use simple_sip_rs.Sip.{Rsip, IsRsip, Method, bye, via, cseq, Request, SipMessage, request}
use simple_sip_rs.Call.Runtime.{Runtime}
use simple_sip_rs.Call.Handler.{
  CallHandler, Ready, control_ready, sip_ready, is_running, handle_sip_message, handle_next, run,
}
use simple_sip_rs.Call.Handler.Ending.{bye_outcome, run_stopped, terminated-stops}
use simple_sip_rs.Call.Handler.Rounds.{
  IsPassed, is_panic, inbox, after_recv, calm_round, message_round, passed_round, control_round,
}

-- How often a message of the server is taken.
abbrev pub messages_taken : List (Ready × Text) → ℕ
messages_taken [] = 0
messages_taken ((sip_ready, uuid) ∷ later) = suc (messages_taken later)
messages_taken ((control_ready, uuid) ∷ later) = messages_taken later

module _ {r : Rsip} {t : Runtime} (laws : IsRsip r) (tx : IsSender t.message_tx)
    (rx : IsReceiver t.message_rx) (q : Request) (v : Text) (n : ℕ) (m : Method)
    (is_bye : q.method ≡ bye) (hv : r.find_header via q.headers ≡ some v)
    (hc : r.find_header cseq q.headers ≡ some (r.cseq_text n m)) where
  bye_round :
      (h : CallHandler t) (rest : List SipMessage) (uuid : Text) (later : List (Ready × Text))
      → is_running r t h ≡ true
      → inbox r t h ≡ request q ∷ rest
      → is_running r t (run r t h ((sip_ready, uuid) ∷ later)) ≡ false
  bye_round h rest uuid later running e =
      let (over, kept, sent) = bye_outcome r t (after_recv r t h) q v n m laws tx is_bye hv hc in
      let x = handle_sip_message r t (after_recv r t h) (request q) in
      let stopped = terminated-stops r t x.0 over in
      let calm : is_panic x.1 ≡ false = elim sent [ inl s ↦ rw s.0 refl | inr s ↦ rw s.0 refl ] in
      rw
        (
          message_round r t h (request q) rest uuid later rx running e calm,
          (run_stopped r t x.0 later stopped).0,
        )
        stopped

  if_running :
      (h : CallHandler t) (schedule : List (Ready × Text))
      → (is_running r t h ≡ true → is_running r t (run r t h schedule) ≡ false)
      → is_running r t (run r t h schedule) ≡ false
  if_running h schedule go = elim (Bool-cases (is_running r t h)) [
    | inl running ↦ go running
    | inr stopped ↦ rw (run_stopped r t h schedule stopped).0 stopped
  ]

  -- A handler that has a BYE behind messages that do not end the call stops, whatever the user asks
  -- for in between, once more messages have been taken than there are before the BYE.
  pub bye_stops :
      (h : CallHandler t) (schedule : List (Ready × Text)) (before rest : List SipMessage)
      → inbox r t h ≡ before ++ request q ∷ rest
      → Each IsPassed before
      → length before < messages_taken schedule
      → is_running r t (run r t h schedule) ≡ false
  bye_stops h [] before rest e p l = absurd (ground (arith, l))
  bye_stops h ((control_ready, uuid) ∷ later) before rest e p l =
      if_running h ((control_ready, uuid) ∷ later) (λ running.
        let (calm, same) = control_round r t h uuid running in
        let h' = (handle_next r t h control_ready uuid).0 in
        rw (calm_round r t h control_ready uuid later running calm)
          (bye_stops h' later before rest (same ∙ e) p l))
  bye_stops h ((sip_ready, uuid) ∷ later) [] rest e p l =
      if_running h ((sip_ready, uuid) ∷ later) (λ running. bye_round h rest uuid later running e)
  bye_stops h ((sip_ready, uuid) ∷ later) (x ∷ xs) rest e p l =
      if_running h ((sip_ready, uuid) ∷ later) (λ running.
        let left = (rx.recv_next h.connection.receiver x (xs ++ request q ∷ rest) e).1 in
        rw (passed_round r t h x (xs ++ request q ∷ rest) uuid later rx running e p.0)
          (bye_stops (after_recv r t h) later xs rest left p.1 (ground (arith, l))))
