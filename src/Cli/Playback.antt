-- ===== src/Cli/Playback.antt =====
-- What the user of examples/cli.rs hears of the calls.
use simple_sip_rs.Prelude.{
  ℕ, ◌+◌, ◌-◌, ◌≡◌, refl, sym, ap, ap₂, ◌∙◌, List, [], ◌∷◌, ◌++◌, Option, none, some, length, take,
  drop, Text, Outcome, ok, err, panic, take-append-drop, ltb, if◌then◌else◌,
}
use mathlib.Core.List.{append-nil, append_assoc}
use simple_sip_rs.Channels.{Sender, Receiver}
use simple_sip_rs.Sip.{Rsip}
use simple_sip_rs.Sdp.{WebrtcSdp}
use simple_sip_rs.SipProto.Register.{Digest}
use simple_sip_rs.Media.Features.{Features}
use simple_sip_rs.Media.TelephoneEvents.{Media, audio, telephone_event, output_empty}
use simple_sip_rs.Call.Runtime.{Runtime, CallControl, hangup, audio_out_empty, finished}
use simple_sip_rs.Call.Incoming.{IncomingCall}
use simple_sip_rs.Call.Ongoing.{Tasks, Call, Ready, Either, left, right, recv_either}
use simple_sip_rs.Cli.{
  output_callback, by_message, handle_current_call, drain, input_callback, append_input,
}
use simple_sip_rs.Cli.Commands.{Supply}
use simple_sip_rs.Cli.Session.{
  Event, tick, message_ready, message_lost, line_read, output_due, input_due, input_appended, State,
  Round, sent_audio, receive, lose, read, output, round, go_on, main_loop,
}
use simple_sip_rs.Cli.Kept.{read-SameAudio, lose-SameAudio}
use simple_sip_rs.Cli.Output.{
  Part, samples_of, sizes, rendered, fill_lem, rendered-append, samples_of-append, sizes-append,
  callback_lem, fits_lem, IsPlayed,
}

module _ (r : Rsip) (t : Runtime) (w : WebrtcSdp) (d : Digest) (features : Features)
    (tx : Sender Media) (rx : Receiver Media) (k : Tasks) (calls : Sender (IncomingCall t))
    (incoming : Receiver (IncomingCall t)) (from_sample : ℕ → ℕ) where
  abbrev Prog : Type 0
  Prog = State r t w d features tx rx k calls incoming from_sample

  abbrev Ended : Type 0
  Ended = Round r t w d features tx rx k calls incoming from_sample

  -- What an event brings from the call, and what it asks for to be played.
  abbrev heard_of : Either (Option CallControl) (Option Media) → List ℕ
  heard_of (right (some (audio samples))) = samples
  heard_of _ = []

  abbrev heard_from : Option (Call t tx rx k) → Ready → List ℕ
  heard_from none ready = []
  heard_from (some c) ready = heard_of (recv_either t tx rx k c ready).1

  abbrev pub heard_by : Prog → Event t tx rx k → List ℕ
  heard_by p (message_ready ready) = heard_from p.current_call ready
  heard_by p _ = []

  abbrev pub due_by : Prog → Event t tx rx k → List ℕ
  due_by p (output_due n) = n ∷ []
  due_by p _ = []

  abbrev while_going : Ended → (Prog → List ℕ) → List ℕ
  while_going (p, some (ok _)) later = later p
  while_going (p, some (err e)) later = []
  while_going (p, some panic) later = []
  while_going (p, none) later = []

  -- What the events of a run bring, until it ends.
  unfoldable pub over_run :
      (Prog → Event t tx rx k → List ℕ) → Prog → List (Event t tx rx k) → List ℕ
  over_run f p [] = []
  over_run f p (event ∷ later) =
      f p event
      ++ while_going (round r t w d features tx rx k calls incoming from_sample p event)
          (λ p'. over_run f p' later)

  abbrev Plays : Prog → Prog → List ℕ → List ℕ → Type 0
  Plays p p' heard due =
      (parts : List Part) × (p'.played ≡ p.played ++ rendered from_sample parts)
      × (samples_of parts ++ p'.buffer_play ≡ p.buffer_play ++ heard)
      × (sizes parts ≡ due)

  -- Nothing is played.
  quiet-Plays :
      (p p' : Prog) (heard : List ℕ)
      → p'.buffer_play ≡ p.buffer_play ++ heard
      → p'.played ≡ p.played
      → Plays p p' heard []
  quiet-Plays p p' heard buffer played = ([], played ∙ sym (append-nil p.played), buffer, refl)

  idle-Plays :
      (p p' : Prog) → p'.buffer_play ≡ p.buffer_play → p'.played ≡ p.played → Plays p p' [] []
  idle-Plays p p' buffer played =
      quiet-Plays p p' [] (buffer ∙ sym (append-nil p.buffer_play)) played

  then-Plays :
      (p p' p'' : Prog) (heard heard' due due' : List ℕ)
      → Plays p p' heard due
      → Plays p' p'' heard' due'
      → Plays p p'' (heard ++ heard') (due ++ due')
  then-Plays p p' p'' heard heard' due due' (ps, played, buffer, size)
        (qs, played', buffer', size') =
      (
        ps ++ qs,
        played'
            ∙ ap (λ (l : List ℕ). l ++ rendered from_sample qs) played
            ∙ append_assoc p.played (rendered from_sample ps) (rendered from_sample qs)
            ∙ ap (λ (l : List ℕ). p.played ++ l) (sym (rendered-append from_sample ps qs)),
        ap (λ (l : List ℕ). l ++ p''.buffer_play) (samples_of-append ps qs)
            ∙ append_assoc (samples_of ps) (samples_of qs) p''.buffer_play
            ∙ ap (λ (l : List ℕ). samples_of ps ++ l) buffer'
            ∙ sym (append_assoc (samples_of ps) p'.buffer_play heard')
            ∙ ap (λ (l : List ℕ). l ++ heard') buffer
            ∙ append_assoc p.buffer_play heard heard',
        sizes-append ps qs ∙ ap₂ (λ (x y : List ℕ). x ++ y) size size',
      )

  sent_audio-Plays :
      (p : Prog) (samples : List ℕ) (c : Option (Call t tx rx k))
      → Plays p (sent_audio r t w d features tx rx k calls incoming from_sample p samples c).0 [] []
  sent_audio-Plays p samples none = idle-Plays p p refl refl
  sent_audio-Plays p samples (some c) =
      idle-Plays p
        (sent_audio r t w d features tx rx k calls incoming from_sample p samples (some c)).0 refl
        refl

  by_message-heard :
      (buffer : List ℕ) (c : Call t tx rx k) (m : Either (Option CallControl) (Option Media))
      → (by_message t tx rx k buffer (c, m)).buffer_play ≡ buffer ++ heard_of m
  by_message-heard buffer c (left none) = sym (append-nil buffer)
  by_message-heard buffer c (left (some finished)) = sym (append-nil buffer)
  by_message-heard buffer c (left (some hangup)) = sym (append-nil buffer)
  by_message-heard buffer c (left (some audio_out_empty)) = sym (append-nil buffer)
  by_message-heard buffer c (right none) = sym (append-nil buffer)
  by_message-heard buffer c (right (some (audio samples))) = refl
  by_message-heard buffer c (right (some (telephone_event e up))) = sym (append-nil buffer)
  by_message-heard buffer c (right (some output_empty)) = sym (append-nil buffer)

  receive-Plays :
      (p : Prog) (ready : Ready) (c : Option (Call t tx rx k))
      → Plays p
          (receive r t w d features tx rx k calls incoming from_sample p ready c).0
          (heard_from c ready)
          []
  unfolding handle_current_call
  receive-Plays p ready none = idle-Plays p p refl refl
  receive-Plays p ready (some c) =
      let (c', m) = recv_either t tx rx k c ready in
      quiet-Plays p (receive r t w d features tx rx k calls incoming from_sample p ready (some c)).0
        (heard_of m) (by_message-heard p.buffer_play c' m) refl

  read-Plays :
      (p : Prog) (a : Supply t tx rx k) (line : Outcome (Option Text))
      → Plays p (read r t w d features tx rx k calls incoming from_sample p a line).0 [] []
  read-Plays p a line =
      let (buffer, played, _) =
        read-SameAudio r t w d features tx rx k calls incoming from_sample a line p in
      idle-Plays p (read r t w d features tx rx k calls incoming from_sample p a line).0 buffer
        played

  output-Plays :
      (p : Prog) (n : ℕ)
      → Plays p
          (output r t w d features tx rx k calls incoming from_sample p
            (output_callback from_sample n p.buffer_play)).0
          []
          (n ∷ [])
  unfolding output_callback
  output-Plays p n =
      let m : ℕ = if ltb n (length p.buffer_play) then n else length p.buffer_play in
      let samples = take m p.buffer_play in
      let part : Part = record { samples = samples; silence = n - m } in
      let fits : length samples + (n - m) ≡ n = fits_lem n p.buffer_play in
      (
        part ∷ [],
        ap (λ (l : List ℕ). p.played ++ l)
            (fill_lem from_sample n (n - m) samples fits ∙ sym (append-nil _)),
        ap (λ (l : List ℕ). l ++ drop m p.buffer_play) (append-nil samples)
            ∙ take-append-drop m p.buffer_play
            ∙ sym (append-nil p.buffer_play),
        ap (λ (x : ℕ). x ∷ []) fits,
      )

  round-Plays :
      (p : Prog) (event : Event t tx rx k)
      → Plays p
          (round r t w d features tx rx k calls incoming from_sample p event).0
          (heard_by p event)
          (due_by p event)
  unfolding round drain
  round-Plays p tick =
      sent_audio-Plays (record p { recorder = record p.recorder { buffer_record = [] } })
        p.recorder.buffer_record p.current_call
  round-Plays p (message_ready ready) = receive-Plays p ready p.current_call
  round-Plays p (message_lost ready) =
      let (buffer, played, _) =
        lose-SameAudio r t w d features tx rx k calls incoming from_sample p ready p.current_call in
      idle-Plays p
        (lose r t w d features tx rx k calls incoming from_sample p ready p.current_call).0 buffer
        played
  round-Plays p (line_read a line) = read-Plays p a line
  round-Plays p (output_due n) = output-Plays p n
  round-Plays p (input_due samples) =
      idle-Plays p (record p { recorder = input_callback samples p.recorder }) refl refl
  round-Plays p input_appended =
      idle-Plays p (record p { recorder = append_input p.recorder }) refl refl

  ended-Plays :
      (p p' : Prog) (heard due : List ℕ)
      → Plays p p' heard due
      → Plays p p' (heard ++ []) (due ++ [])
  ended-Plays p p' heard due x = then-Plays p p' p' heard [] due [] x (idle-Plays p' p' refl refl)

  go_on-Plays :
      (p : Prog) (x : Ended) (later : Prog → Ended) (heard due : Prog → List ℕ) (h s : List ℕ)
      → Plays p x.0 h s
      → Plays x.0 (later x.0).0 (heard x.0) (due x.0)
      → Plays p
          (go_on r t w d features tx rx k calls incoming from_sample x later).0
          (h ++ while_going x heard)
          (s ++ while_going x due)
  go_on-Plays p (p', some (ok u)) later heard due h s first rest =
      then-Plays p p' (later p').0 h (heard p') s (due p') first rest
  go_on-Plays p (p', some (err e)) later heard due h s first rest = ended-Plays p p' h s first
  go_on-Plays p (p', some panic) later heard due h s first rest = ended-Plays p p' h s first
  go_on-Plays p (p', none) later heard due h s first rest = ended-Plays p p' h s first

  run-Plays :
      (p : Prog) (events : List (Event t tx rx k))
      → Plays p
          (main_loop r t w d features tx rx k calls incoming from_sample p events).0
          (over_run heard_by p events)
          (over_run due_by p events)
  unfolding main_loop over_run
  run-Plays p [] = idle-Plays p p refl refl
  run-Plays p (event ∷ later) =
      let x = round r t w d features tx rx k calls incoming from_sample p event in
      go_on-Plays p x (λ q. main_loop r t w d features tx rx k calls incoming from_sample q later)
        (λ q. over_run heard_by q later) (λ q. over_run due_by q later) (heard_by p event)
        (due_by p event) (round-Plays p event) (run-Plays x.0 later)

  -- A callback of the output device plays the next samples of the buffer, and silence only where
  -- there are too few. Over any run of the program what the device is given is a sequence of such
  -- parts, samples with silence behind them, of the sizes that the device asks for while the
  -- program runs; the samples of the parts in order, and what is left in the buffer, are the
  -- samples that were in the buffer and the audio received from the calls, in order, but for
  -- messages whose branch was dropped.
  pub audio_played :
      (p : Prog) (events : List (Event t tx rx k))
      → let p' = (main_loop r t w d features tx rx k calls incoming from_sample p events).0 in
        ((n : ℕ) (buffer : List ℕ) → IsPlayed from_sample n buffer)
        × ((parts : List Part) × (p'.played ≡ p.played ++ rendered from_sample parts)
            × (samples_of parts ++ p'.buffer_play ≡ p.buffer_play ++ over_run heard_by p events)
            × (sizes parts ≡ over_run due_by p events))
  audio_played p events = (callback_lem from_sample, run-Plays p events)
