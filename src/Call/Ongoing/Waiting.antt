-- ===== src/Call/Ongoing/Waiting.antt =====
-- When the user of src/call/mod.rs gets control back from `block_for_finished`.
use simple_sip_rs.Prelude.{
  ℕ, zero, suc, ◌<◌, ◌≡◌, refl, ap, ◌∙◌, true, false, List, [], ◌∷◌, ◌++◌, Text, length,
  append-cancel, arith,
}
use mathlib.Core.List.{append_assoc}
use simple_sip_rs.Channels.{Sender, IsSender, Receiver, IsReceiver}
use simple_sip_rs.Utils
use simple_sip_rs.Sip.{Rsip}
use simple_sip_rs.Media.TelephoneEvents.{Media}
use simple_sip_rs.Call.Runtime.{Runtime, CallControl, hangup, audio_out_empty, finished}
use simple_sip_rs.Call.Handler as Handler
use simple_sip_rs.Call.Handler.{CallHandler, run, call_task}
use simple_sip_rs.Call.Ongoing.{Tasks, Call, is_finished_message, block_for_finished}

abbrev pub NoneFinished : List CallControl → Type 0
NoneFinished [] = Unit {0}
NoneFinished (m ∷ ms) = (is_finished_message m ≡ false) × NoneFinished ms

module _ (t : Runtime) (tx : Sender Media) (rx : Receiver Media) (k : Tasks) where
  -- The control messages that the user gets from now on.
  abbrev pub arrivals : Call t tx rx k → List CallControl
  arrivals c = t.control_rx.arrivals c.call_channel.receiver

  -- The call after it has received a message.
  abbrev after_recv : Call t tx rx k → Call t tx rx k
  after_recv c = record c {
    call_channel = record c.call_channel {
      receiver = (t.control_rx.recv c.call_channel.receiver).0;
    };
  }

  block_returns :
      (fuel : ℕ) (c : Call t tx rx k) (before rest : List CallControl)
      → IsReceiver t.control_rx
      → arrivals c ≡ before ++ finished ∷ rest
      → NoneFinished before
      → length before < fuel
      → ((block_for_finished t tx rx k fuel c).1 ≡ true)
        × (arrivals (block_for_finished t tx rx k fuel c).0 ≡ rest)
  unfolding block_for_finished Utils.recv
  block_returns zero c before rest law e n l = absurd (omega arith)
  block_returns (suc fuel) c [] rest law e n l =
      let x = law.recv_next c.call_channel.receiver finished rest e in rw x.0 (refl, x.1)
  block_returns (suc fuel) c (m ∷ before) rest law e n l =
      let x = law.recv_next c.call_channel.receiver m (before ++ finished ∷ rest) e in
      rw (x.0, n.0) (block_returns fuel (after_recv c) before rest law x.1 n.1 (omega arith))

  -- Where the message that the call has finished is not among those that the user gets from now
  -- on, block_for_finished does not return however long it runs, also once the channel is closed.
  -- It assumes the law of the receiving half.
  pub block_never_returns :
      (fuel : ℕ) (c : Call t tx rx k) (ms : List CallControl)
      → IsReceiver t.control_rx
      → arrivals c ≡ ms
      → NoneFinished ms
      → (block_for_finished t tx rx k fuel c).1 ≡ false
  unfolding block_for_finished Utils.recv
  block_never_returns zero c ms law e n = refl
  block_never_returns (suc fuel) c [] law e n = rw (law.recv_end c.call_channel.receiver e) (
      block_never_returns fuel (after_recv c) [] law (law.recv_closed c.call_channel.receiver e) tt)
  block_never_returns (suc fuel) c (m ∷ ms) law e n =
      let x = law.recv_next c.call_channel.receiver m ms e in
      rw (x.0, n.0) (block_never_returns fuel (after_recv c) ms law x.1 n.1)

  -- The first `Finished` of a list that ends in one.
  record Split (ms : List CallControl) : Type 0 where
    before : List CallControl
    rest : List CallControl
    same : ms ++ finished ∷ [] ≡ before ++ finished ∷ rest
    clear : NoneFinished before

  first_finished : (ms : List CallControl) → Split ms
  first_finished [] = record { before = []; rest = []; same = refl; clear = tt }
  first_finished (finished ∷ ms) = record {
    before = [];
    rest = ms ++ finished ∷ [];
    same = refl;
    clear = tt;
  }
  first_finished (hangup ∷ ms) =
      let s = first_finished ms in
      record {
        before = hangup ∷ s.before;
        rest = s.rest;
        same = ap (λ (l : List CallControl). hangup ∷ l) s.same;
        clear = (refl, s.clear);
      }
  first_finished (audio_out_empty ∷ ms) =
      let s = first_finished ms in
      record {
        before = audio_out_empty ∷ s.before;
        rest = s.rest;
        same = ap (λ (l : List CallControl). audio_out_empty ∷ l) s.same;
        clear = (refl, s.clear);
      }

  -- Whatever a call's task does under a schedule: where its last message is accepted, and the
  -- user gets what the task has sent on the control channel, of which the user may have received
  -- some before this message, block_for_finished returns. It assumes the laws of the two halves
  -- of the channel.
  pub task_end_unblocks :
      (r : Rsip) (h : CallHandler t) (schedule : List (Handler.Ready × Text)) (c : Call t tx rx k)
      (got waiting : List CallControl)
      → IsSender t.control_tx
      → IsReceiver t.control_rx
      → (t.control_tx.send (run r t h schedule).call_channel.sender finished).1 ≡ true
      → t.control_tx.sent (run r t h schedule).call_channel.sender ≡ got ++ waiting
      → got ++ arrivals c ≡ t.control_tx.sent (call_task r t h schedule).call_channel.sender
      → (fuel : ℕ) × ((block_for_finished t tx rx k fuel c).1 ≡ true)
  unfolding call_task Handler.drop Utils.send
  task_end_unblocks r h schedule c got waiting sender receiver open_end until_now delivered =
      let all = sender.send_ok (run r t h schedule).call_channel.sender finished open_end in
      let since : arrivals c ≡ waiting ++ finished ∷ [] = append-cancel got (
        delivered
        ∙ all
        ∙ ap (λ (ms : List CallControl). ms ++ finished ∷ []) until_now
        ∙ append_assoc got waiting (finished ∷ [])) in
      let s = first_finished waiting in
      (
        suc (length s.before),
        (block_returns (suc (length s.before)) c s.before s.rest receiver (since ∙ s.same) s.clear
            (omega arith)).0,
      )
