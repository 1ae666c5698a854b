-- ===== src/Call/Handler/Once.antt =====
-- That a call ends once, whatever src/call/call_handler.rs is scheduled to do.
use simple_sip_rs.Prelude.{
  ◌≡◌, refl, ◌∙◌, subst, sym, ◌⊎◌, inl, inr, true, false, List, [], ◌∷◌, ◌++◌, Text, Outcome, ok,
  err, panic, Bool-cases,
}
use simple_sip_rs.Channels.{IsSender}
use simple_sip_rs.Utils as Utils
use simple_sip_rs.Sip.{Rsip, SipMessage}
use simple_sip_rs.Call.Runtime.{Runtime, CallControl, finished}
use simple_sip_rs.Call.Handler.{CallHandler, Ready, is_running, handle_next, drop, run, call_task}
use simple_sip_rs.Call.Handler.Ending.{messages, run_stopped, terminated-stops}
use simple_sip_rs.Call.Handler.Closing.{Closed, Rung, told, Kept, Ended, handle_next-Kept_or_Ended}

module _ (r : Rsip) (t : Runtime) (law : IsSender t.message_tx) (user : IsSender t.control_tx) where
  then-Kept_or_Ended :
      (h h' d : CallHandler t)
      → Kept r t h h'
      → Kept r t h' d ⊎ Ended r t h' d
      → Kept r t h d ⊎ Ended r t h d
  then-Kept_or_Ended h h' d (ms, ts, e) (inl (ms', ts', e')) = inl (ms' ∙ ms, ts' ∙ ts, e' ∙ e)
  then-Kept_or_Ended h h' d (ms, ts, e) (inr (done, closed, rung)) = inr (
    done,
    subst (λ (xs : List SipMessage). Closed xs (messages r t d)) ms closed,
    subst (λ (xs : List CallControl). Rung xs (told r t d)) ts rung,
  )

  -- After a round the loop goes on, or a panic stops it.
  stop_or_go :
      (P : CallHandler t → Type 0) (h' rest : CallHandler t) (o : Outcome (Unit {0}))
      → P h'
      → P rest
      → P (elim o [ panic ↦ h' | _ ↦ rest ])
  stop_or_go P h' rest (ok u) p q = q
  stop_or_go P h' rest (err e) p q = q
  stop_or_go P h' rest panic p q = p

  run-Kept_or_Ended :
      (h : CallHandler t) (schedule : List (Ready × Text))
      → let h' = run r t h schedule in Kept r t h h' ⊎ Ended r t h h'
  unfolding run
  run-Kept_or_Ended h [] = inl (refl, refl, refl)
  run-Kept_or_Ended h ((ready, uuid) ∷ later) =
      let (h', res) = handle_next r t h ready uuid in
      let round = handle_next-Kept_or_Ended r t law user h ready uuid in
      let later_rounds = run-Kept_or_Ended h' later in
      elim (Bool-cases (is_running r t h)) [
        | inr stopped ↦ rw stopped (inl (refl, refl, refl))
        | inl running ↦ rw running (
            stop_or_go (λ d. Kept r t h d ⊎ Ended r t h d) h' (run r t h' later) res round
              (elim round [
                | inl kept ↦ then-Kept_or_Ended h h' (run r t h' later) kept later_rounds
                | inr ended ↦
                    let same = (run_stopped r t h' later (terminated-stops r t h' ended.0)).0 in
                    subst (λ d. Kept r t h d ⊎ Ended r t h d) (sym same) (inr ended)
              ]))
      ]

  run-Closed :
      (h : CallHandler t) (schedule : List (Ready × Text))
      → let h' = run r t h schedule in
        Closed (messages r t h) (messages r t h') × Rung (told r t h) (told r t h')
  run-Closed h schedule = elim (run-Kept_or_Ended h schedule) [
    | inl (ms, ts, _) ↦ (inl ms, inl ts)
    | inr (_, closed, rung) ↦ (closed, rung)
  ]

  -- Whatever the task of a call is scheduled to do, it sends the socket at most one message,
  -- which is a BYE or a response with status 200; before its end it tells the user at most once,
  -- that the call is hung up; and its last message to the user is that the call has finished, if
  -- the channel takes it. It assumes the laws of the two sending halves.
  pub ends_once :
      (h : CallHandler t) (schedule : List (Ready × Text))
      → let before = run r t h schedule in
        let h' = call_task r t h schedule in
        let taken = (t.control_tx.send before.call_channel.sender finished).1 in
        Closed (messages r t h) (messages r t h')
        × Rung (told r t h) (told r t before)
        × (((taken ≡ true) × (told r t h' ≡ told r t before ++ finished ∷ []))
            ⊎ ((taken ≡ false) × (told r t h' ≡ told r t before)))
  unfolding call_task drop Utils.send
  ends_once h schedule =
      let s = (run r t h schedule).call_channel.sender in
      let (closed, rung) = run-Closed h schedule in
      (
        closed,
        rung,
        elim (Bool-cases (t.control_tx.send s finished).1) [
          | inl done ↦ inl (done, user.send_ok s finished done)
          | inr lost ↦ inr (lost, user.send_failed s finished lost)
        ],
      )
