-- ===== src/Cli.antt =====
-- examples/cli.rs: a softphone on a terminal. This file has what it does with samples and with the
-- messages of its call; Cli/Commands.antt has its commands and Cli/Session.antt its loop. The audio
-- devices of cpal call the two callbacks. A sample is the bits of its `f32`.
pub mod Commands
pub mod Session
pub mod Kept
pub mod Output
pub mod Playback
pub mod Recording
pub mod Ending
pub mod Unanswered
use simple_sip_rs.Prelude.{
  ℕ, zero, suc, Bool, true, false, List, [], ◌∷◌, ◌++◌, Option, none, some, length, take, drop,
  Outcome, ok, panic, ltb, if◌then◌else◌,
}
use simple_sip_rs.Channels.{Sender, Receiver}
use simple_sip_rs.Media.TelephoneEvents.{Media, audio, telephone_event, output_empty}
use simple_sip_rs.Call.Runtime.{Runtime, CallControl}
use simple_sip_rs.Call.Ongoing as Ongoing
use simple_sip_rs.Call.Ongoing.{Tasks, Call, Ready, Either, left, right, is_finished_message}

-- `build_output_stream`: the callback that fills the device's `n` samples from the buffer, over
-- `cpal::Sample::from_sample`.
module _ (from_sample : ℕ → ℕ) where
  unfoldable pub fill : ℕ → List ℕ → List ℕ
  fill zero samples = []
  fill (suc n) [] = from_sample 0 ∷ fill n []
  fill (suc n) (s ∷ samples) = from_sample s ∷ fill n samples

  unfoldable pub output_callback : ℕ → List ℕ → List ℕ × List ℕ
  output_callback n buffer =
      let end_index : ℕ = if ltb n (length buffer) then n else length buffer in
      (drop end_index buffer, fill n (take end_index buffer))

-- The buffer of recorded samples, and those that a callback is about to append: it locks the buffer
-- once to look at its length and once more to append, and the main loop may drain it in between.
pub record Recorder : Type 0 where
  pub buffer_record : List ℕ
  pub pending : Option (List ℕ)

-- `build_input_stream`
unfoldable pub input_callback : List ℕ → Recorder → Recorder
input_callback samples b = record b {
  pending = if ltb (length b.buffer_record) 5000 then some samples else none;
}

abbrev appended : List ℕ → Option (List ℕ) → List ℕ
appended buffer none = buffer
appended buffer (some samples) = buffer ++ samples

unfoldable pub append_input : Recorder → Recorder
append_input b = record { buffer_record = appended b.buffer_record b.pending; pending = none }

-- `drain(0..)` in `main`
unfoldable pub drain : Recorder → Recorder × List ℕ
drain b = (record b { buffer_record = [] }, b.buffer_record)

module _ (t : Runtime) (tx : Sender Media) (rx : Receiver Media) (k : Tasks) where
  -- The call of the user, the samples that are to be played, and the call that was dropped.
  pub record Current : Type 0 where
    pub current_call : Option (Call t tx rx k)
    pub buffer_play : List ℕ
    pub dropped : Option (Call t tx rx k)

  abbrev pub keep : Call t tx rx k → List ℕ → Current
  keep c buffer = record { current_call = some c; buffer_play = buffer; dropped = none }

  abbrev pub by_control : Call t tx rx k → List ℕ → Option CallControl → Current
  by_control c buffer none = keep c buffer
  by_control c buffer (some control) =
      if is_finished_message control
      then record {
        current_call = none;
        buffer_play = buffer;
        dropped = some (Ongoing.drop t tx rx k c);
      }
      else keep c buffer

  abbrev pub by_media : Call t tx rx k → List ℕ → Option Media → Current
  by_media c buffer none = keep c buffer
  by_media c buffer (some (audio samples)) = keep c (buffer ++ samples)
  by_media c buffer (some (telephone_event e up)) = keep c buffer
  by_media c buffer (some output_empty) = keep c buffer

  abbrev pub by_message :
      List ℕ → Call t tx rx k × Either (Option CallControl) (Option Media) → Current
  by_message buffer (c, left control) = by_control c buffer control
  by_message buffer (c, right media) = by_media c buffer media

  -- Without a call it panics; which branch of `recv_either` is ready is an argument.
  unfoldable pub handle_current_call :
      Option (Call t tx rx k) → List ℕ → Ready → Current × Outcome (Unit {0})
  handle_current_call none buffer ready =
      (record { current_call = none; buffer_play = buffer; dropped = none }, panic)
  handle_current_call (some c) buffer ready =
      (by_message buffer (Ongoing.recv_either t tx rx k c ready), ok tt)
