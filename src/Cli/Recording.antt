-- ===== src/Cli/Recording.antt =====
-- How much examples/cli.rs keeps of what it records.
use simple_sip_rs.Prelude.{
  ℕ, ◌+◌, ◌<◌, ◌≤◌, ◌≡◌, refl, subst, sym, List, [], ◌∷◌, Option, none, some, length, length-append,
  ok, err, panic, arith, ltb, Bool-cases, inl, inr, Each,
}
use simple_sip_rs.Channels.{Sender, Receiver}
use simple_sip_rs.Sip.{Rsip}
use simple_sip_rs.Sdp.{WebrtcSdp}
use simple_sip_rs.SipProto.Register.{Digest}
use simple_sip_rs.Media.Features.{Features}
use simple_sip_rs.Media.TelephoneEvents.{Media}
use simple_sip_rs.Call.Runtime.{Runtime}
use simple_sip_rs.Call.Incoming.{IncomingCall}
use simple_sip_rs.Call.Ongoing.{Tasks, Call, Ready}
use simple_sip_rs.Manager.{SipManager}
use simple_sip_rs.Cli.{Recorder, input_callback, append_input, drain}
use simple_sip_rs.Cli.Session.{
  Event, tick, message_ready, message_lost, line_read, output_due, input_due, input_appended, State,
  Round, sent_audio, receive, round, go_on, main_loop, initial,
}
use simple_sip_rs.Cli.Kept.{read-SameAudio, lose-SameAudio}

-- Between its two halves a callback has seen a buffer with room.
abbrev IsBounded : ℕ → List ℕ → Option (List ℕ) → Type 0
IsBounded cap buffer none = length buffer < 5000 + cap
IsBounded cap buffer (some samples) = (length buffer < 5000) × (length samples ≤ cap)

abbrev HasBound : ℕ → Recorder → Type 0
HasBound cap b = IsBounded cap b.buffer_record b.pending

drained-IsBounded :
    (cap : ℕ) (buffer : List ℕ) (pending : Option (List ℕ))
    → IsBounded cap buffer pending
    → IsBounded cap [] pending
drained-IsBounded cap buffer none h = omega arith
drained-IsBounded cap buffer (some samples) h = (omega arith, h.1)

below :
    (cap : ℕ) (buffer : List ℕ) (pending : Option (List ℕ))
    → IsBounded cap buffer pending
    → length buffer < 5000 + cap
below cap buffer none h = h
below cap buffer (some samples) h = let less = h.0 in omega arith

input_callback-HasBound :
    (cap : ℕ) (samples : List ℕ) (b : Recorder)
    → length samples ≤ cap
    → HasBound cap b
    → HasBound cap (input_callback samples b)
unfolding input_callback
input_callback-HasBound cap samples b small h =
    elim (Bool-cases (ltb (length b.buffer_record) 5000)) [
      | inl room ↦ rw room (ground (arith, room), small)
      | inr full ↦ rw full (below cap b.buffer_record b.pending h)
    ]

append_input-HasBound :
    (cap : ℕ) (buffer : List ℕ) (pending : Option (List ℕ))
    → IsBounded cap buffer pending
    → HasBound cap (append_input (record { buffer_record = buffer; pending = pending }))
unfolding append_input
append_input-HasBound cap buffer none h = h
append_input-HasBound cap buffer (some samples) h =
    let (room, small) = h in omega (arith, length-append buffer samples)

module _ {t : Runtime} {tx : Sender Media} {rx : Receiver Media} {k : Tasks} where
  -- A callback that records gets at most so many samples.
  abbrev pub IsSmall : ℕ → Event t tx rx k → Type 0
  IsSmall cap (input_due samples) = length samples ≤ cap
  IsSmall cap _ = Unit {0}

module _ (r : Rsip) (t : Runtime) (w : WebrtcSdp) (d : Digest) (features : Features)
    (tx : Sender Media) (rx : Receiver Media) (k : Tasks) (calls : Sender (IncomingCall t))
    (incoming : Receiver (IncomingCall t)) (from_sample : ℕ → ℕ) where
  abbrev Prog : Type 0
  Prog = State r t w d features tx rx k calls incoming from_sample

  abbrev Ended : Type 0
  Ended = Round r t w d features tx rx k calls incoming from_sample

  sent_audio-recorder :
      (p : Prog) (samples : List ℕ) (c : Option (Call t tx rx k))
      → (sent_audio r t w d features tx rx k calls incoming from_sample p samples c).0.recorder
        ≡ p.recorder
  sent_audio-recorder p samples none = refl
  sent_audio-recorder p samples (some c) = refl

  receive-recorder :
      (p : Prog) (ready : Ready) (c : Option (Call t tx rx k))
      → (receive r t w d features tx rx k calls incoming from_sample p ready c).0.recorder
        ≡ p.recorder
  receive-recorder p ready none = refl
  receive-recorder p ready (some c) = refl

  round-HasBound :
      (cap : ℕ) (p : Prog) (event : Event t tx rx k)
      → IsSmall cap event
      → HasBound cap p.recorder
      → HasBound cap (round r t w d features tx rx k calls incoming from_sample p event).0.recorder
  unfolding round drain
  round-HasBound cap p tick small h =
      let drained : Recorder = record p.recorder { buffer_record = [] } in
      subst (HasBound cap)
        (sym (
          sent_audio-recorder (record p { recorder = drained }) p.recorder.buffer_record
            p.current_call))
        (drained-IsBounded cap p.recorder.buffer_record p.recorder.pending h)
  round-HasBound cap p (message_ready ready) small h =
      subst (HasBound cap) (sym (receive-recorder p ready p.current_call)) h
  round-HasBound cap p (message_lost ready) small h =
      subst (HasBound cap)
        (sym
          (lose-SameAudio r t w d features tx rx k calls incoming from_sample p ready
            p.current_call).2)
        h
  round-HasBound cap p (line_read a line) small h =
      subst (HasBound cap)
        (sym (read-SameAudio r t w d features tx rx k calls incoming from_sample a line p).2) h
  round-HasBound cap p (output_due n) small h = h
  round-HasBound cap p (input_due samples) small h =
      input_callback-HasBound cap samples p.recorder small h
  round-HasBound cap p input_appended small h =
      append_input-HasBound cap p.recorder.buffer_record p.recorder.pending h

  go_on-HasBound :
      (cap : ℕ) (x : Ended) (later : Prog → Ended)
      → HasBound cap x.0.recorder
      → HasBound cap (later x.0).0.recorder
      → HasBound cap (go_on r t w d features tx rx k calls incoming from_sample x later).0.recorder
  go_on-HasBound cap (p, some (ok u)) later h rest = rest
  go_on-HasBound cap (p, some (err e)) later h rest = h
  go_on-HasBound cap (p, some panic) later h rest = h
  go_on-HasBound cap (p, none) later h rest = h

  main_loop-HasBound :
      (cap : ℕ) (p : Prog) (events : List (Event t tx rx k))
      → Each (IsSmall cap) events
      → HasBound cap p.recorder
      → HasBound cap
          (main_loop r t w d features tx rx k calls incoming from_sample p events).0.recorder
  unfolding main_loop
  main_loop-HasBound cap p [] small h = h
  main_loop-HasBound cap p (event ∷ later) small h =
      let x = round r t w d features tx rx k calls incoming from_sample p event in
      let first = round-HasBound cap p event small.0 h in
      go_on-HasBound cap x
        (λ q. main_loop r t w d features tx rx k calls incoming from_sample q later) first
        (main_loop-HasBound cap x.0 later small.1 first)

  -- From the start of the program, whatever happens, where no callback of the input device brings
  -- more than a number of samples, the buffer of recorded samples stays below 5000 and that
  -- number, also where the loop drains it between the two locks of a callback.
  pub recording_bounded :
      (m : SipManager t calls incoming k) (cap : ℕ) (events : List (Event t tx rx k))
      → Each (IsSmall cap) events
      → let p = initial r t w d features tx rx k calls incoming from_sample m in
        let p' = (main_loop r t w d features tx rx k calls incoming from_sample p events).0 in
        length p'.recorder.buffer_record < 5000 + cap
  unfolding initial
  recording_bounded m cap events small =
      let p = initial r t w d features tx rx k calls incoming from_sample m in
      let p' = (main_loop r t w d features tx rx k calls incoming from_sample p events).0 in
      below cap p'.recorder.buffer_record p'.recorder.pending
        (main_loop-HasBound cap p events small (omega arith))
