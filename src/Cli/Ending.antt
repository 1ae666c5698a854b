-- ===== src/Cli/Ending.antt =====
-- How examples/cli.rs ends: every error of a command, and of sending audio, is a panic of `main`.
use simple_sip_rs.Prelude.{◌≡◌, refl, false, List, ◌∷◌, none, some, text_eq, codes, ok, panic, ℕ}
use simple_sip_rs.Channels.{Sender, Receiver}
use simple_sip_rs.Utils as Utils
use simple_sip_rs.Sip.{Rsip}
use simple_sip_rs.Sdp.{WebrtcSdp}
use simple_sip_rs.SipProto.Register.{Digest}
use simple_sip_rs.Media.Features.{Features}
use simple_sip_rs.Media.TelephoneEvents.{Media, audio}
use simple_sip_rs.Call.Runtime.{Runtime, CallControl}
use simple_sip_rs.Call.Incoming.{IncomingCall}
use simple_sip_rs.Call.Ongoing.{Tasks, Call, send_audio, hang_up}
use simple_sip_rs.Cli.{drain}
use simple_sip_rs.Cli.Commands.{Supply, split, command_of, handle_command_input}
use simple_sip_rs.Cli.Session.{Event, tick, line_read, State, round, main_loop}

module _ (r : Rsip) (t : Runtime) (w : WebrtcSdp) (d : Digest) (features : Features)
    (tx : Sender Media) (rx : Receiver Media) (k : Tasks) (calls : Sender (IncomingCall t))
    (incoming : Receiver (IncomingCall t)) (from_sample : ℕ → ℕ) where
  -- Where neither of the channels to the tasks of the current call takes a message any more, the
  -- next tick and the command hangup each end the program in a panic, and so does the end of its
  -- input.
  pub over_panics :
      (p : State r t w d features tx rx k calls incoming from_sample) (c : Call t tx rx k)
      (a : Supply t tx rx k) (later : List (Event t tx rx k))
      → p.current_call ≡ some c
      → (tx.send c.media_channel.sender (audio p.recorder.buffer_record)).1 ≡ false
      → (t.control_tx.send c.call_channel.sender CallControl.hangup).1 ≡ false
      → let loop = main_loop r t w d features tx rx k calls incoming from_sample in
        ((loop p (tick ∷ later)).1 ≡ some panic)
        × ((loop p (line_read a (ok (some (codes "hangup"))) ∷ later)).1 ≡ some panic)
        × ((loop p (line_read a (ok none) ∷ later)).1 ≡ some panic)
  unfolding main_loop round drain send_audio hang_up Utils.send handle_command_input split
      command_of text_eq
  over_panics p c a later e media control = (rw (e, media) refl, rw (e, control) refl, refl)
