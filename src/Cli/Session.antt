-- ===== src/Cli/Session.antt =====
-- examples/cli.rs: `main` and its loop, over a schedule of what happens: a branch of its `select!`
-- is ready, or an audio device calls one of the two callbacks, which run in threads of their own.
use simple_sip_rs.Prelude.{
  ℕ, List, [], ◌∷◌, ◌++◌, Option, none, some, Text, Outcome, ok, err, panic, unwrap, ◌>>=◌,
}
use simple_sip_rs.Config.{SocketAddr, Config}
use simple_sip_rs.Channels.{Sender, Receiver}
use simple_sip_rs.Sip.{Rsip}
use simple_sip_rs.Sdp.{WebrtcSdp}
use simple_sip_rs.SipProto.Register.{Digest}
use simple_sip_rs.Media.Features.{Features}
use simple_sip_rs.Media.TelephoneEvents.{Media, audio}
use simple_sip_rs.Call.Runtime.{Runtime, CallControl}
use simple_sip_rs.Call.Incoming.{IncomingCall}
use simple_sip_rs.Call.Ongoing.{Tasks, Call, Ready, Either, right, send_audio, recv_either}
use simple_sip_rs.Manager.{SipManager}
use simple_sip_rs.Cli.{
  Recorder, input_callback, append_input, drain, output_callback, Current, handle_current_call,
}
use simple_sip_rs.Cli.Commands.{Supply, Prog, Result, handle_command_input}

-- The command line, and the configuration that `main` makes of it; `SocketAddr::from_str` is an
-- argument, and its error a panic.
pub record Args : Type 0 where
  pub server_address : Text
  pub own_address : Text
  pub username : Text
  pub password : Text

unfoldable pub config_of : (Text → Option SocketAddr) → Args → Outcome Config
config_of from_str args = do
  server ← unwrap (from_str args.server_address)
  own ← unwrap (from_str args.own_address)
  ok (record {
    server_addr = server;
    own_addr = own;
    username = args.username;
    password = args.password;
    rtp_port_start = 20480;
    rtp_port_end = 20490;
  })

module _ (t : Runtime) (tx : Sender Media) (rx : Receiver Media) (k : Tasks) where
  -- The tick of 10 ms, a message of the call, a line of the terminal as `next_line` returns it, and
  -- the callbacks: one that plays, and the two halves of one that records. `message_lost` is a
  -- message of the call whose branch is dropped while it waits for the lock of `buffer_play`, since
  -- another branch is ready.
  pub data Event : Type 0 where
    tick : Event
    message_ready : Ready → Event
    message_lost : Ready → Event
    line_read : Supply t tx rx k → Outcome (Option Text) → Event
    output_due : ℕ → Event
    input_due : List ℕ → Event
    input_appended : Event

module _ (r : Rsip) (t : Runtime) (w : WebrtcSdp) (d : Digest) (features : Features)
    (tx : Sender Media) (rx : Receiver Media) (k : Tasks) (calls : Sender (IncomingCall t))
    (incoming : Receiver (IncomingCall t)) (from_sample : ℕ → ℕ) where
  abbrev pub Round : Type 0
  Round = Result r t w d features tx rx k calls incoming

  abbrev pub State : Type 0
  State = Prog r t w d features tx rx k calls incoming

  -- `unwrap`
  abbrev pub unwrapped : Outcome (Unit {0}) → Outcome (Unit {0})
  unwrapped (ok _) = ok tt
  unwrapped (err e) = panic
  unwrapped panic = panic

  abbrev pub sent_audio : State → List ℕ → Option (Call t tx rx k) → Round
  sent_audio p samples none = (p, some (ok tt))
  sent_audio p samples (some c) =
      let (c', o) = send_audio t tx rx k c samples in
      (record p { current_call = some c' }, some (unwrapped o))

  abbrev pub send_recorded : State → Recorder × List ℕ → Round
  send_recorded p (recorder, samples) =
      sent_audio (record p { recorder = recorder }) samples p.current_call

  abbrev dropped_list : Option (Call t tx rx k) → List (Call t tx rx k)
  dropped_list none = []
  dropped_list (some c) = c ∷ []

  -- An error is printed.
  abbrev printed : Outcome (Unit {0}) → Outcome (Unit {0})
  printed (ok _) = ok tt
  printed (err e) = ok tt
  printed panic = panic

  abbrev pub handled : State → Current t tx rx k × Outcome (Unit {0}) → Round
  handled p (current, o) = (
    record p {
      current_call = current.current_call;
      buffer_play = current.buffer_play;
      dropped = p.dropped ++ dropped_list current.dropped;
    },
    some (printed o),
  )

  -- The branch is there only where there is a call.
  abbrev pub receive : State → Ready → Option (Call t tx rx k) → Round
  receive p ready none = (p, some (ok tt))
  receive p ready (some c) = handled p (handle_current_call t tx rx k (some c) p.buffer_play ready)

  -- Only for audio does the branch wait for the lock, after it has taken the message.
  abbrev pub lost : State → Call t tx rx k × Either (Option CallControl) (Option Media) → Round
  lost p (c, right (some (audio samples))) = (record p { current_call = some c }, some (ok tt))
  lost p _ = (p, some (ok tt))

  abbrev pub lose : State → Ready → Option (Call t tx rx k) → Round
  lose p ready none = (p, some (ok tt))
  lose p ready (some c) = lost p (recv_either t tx rx k c ready)

  abbrev pub unwrapped_result : Round → Round
  unwrapped_result (p, none) = (p, none)
  unwrapped_result (p, some o) = (p, some (unwrapped o))

  -- `line.unwrap().unwrap()`
  abbrev pub read : State → Supply t tx rx k → Outcome (Option Text) → Round
  read p a (ok (some line)) =
      unwrapped_result (handle_command_input r t w d features tx rx k calls incoming a line p)
  read p a (ok none) = (p, some panic)
  read p a (err e) = (p, some panic)
  read p a panic = (p, some panic)

  abbrev pub output : State → List ℕ × List ℕ → Round
  output p (buffer, data') =
      (record p { buffer_play = buffer; played = p.played ++ data' }, some (ok tt))

  unfoldable pub round : State → Event t tx rx k → Round
  round p tick = send_recorded p (drain p.recorder)
  round p (message_ready ready) = receive p ready p.current_call
  round p (message_lost ready) = lose p ready p.current_call
  round p (line_read a line) = read p a line
  round p (output_due n) = output p (output_callback from_sample n p.buffer_play)
  round p (input_due samples) =
      (record p { recorder = input_callback samples p.recorder }, some (ok tt))
  round p input_appended = (record p { recorder = append_input p.recorder }, some (ok tt))

  abbrev pub go_on : Round → (State → Round) → Round
  go_on (p, some (ok _)) later = later p
  go_on (p, some (err e)) later = (p, some (err e))
  go_on (p, some panic) later = (p, some panic)
  go_on (p, none) later = (p, none)

  -- The loop has no other end than a panic: `ok` means that it still runs after the events.
  unfoldable pub main_loop : State → List (Event t tx rx k) → Round
  main_loop p [] = (p, some (ok tt))
  main_loop p (event ∷ later) = go_on (round p event) (λ p'. main_loop p' later)

  unfoldable pub initial : SipManager t calls incoming k → State
  initial m = record {
    sip_manager = m;
    current_call = none;
    buffer_play = [];
    recorder = record { buffer_record = []; pending = none };
    dropped = [];
    spawned = [];
    played = [];
  }
