-- ===== src/Call/Ongoing.antt =====
-- src/call/mod.rs: the user's handle of an ongoing call. The tasks of tokio are an interface, and so
-- are the channels; `Call::new` spawns the two tasks of Call/Handler.antt and Call/RtpSession.antt.
pub mod Waiting
pub mod Playback
use simple_sip_rs.Prelude.{
  ℕ, zero, suc, Bool, true, false, not, ◌||◌, List, [], ◌∷◌, Option, none, some, Text, Outcome, ok,
  err, panic, unwrap, ◌>>=◌, if◌then◌else◌,
}
use simple_sip_rs.Channels.{Sender, Receiver}
use simple_sip_rs.Utils
use simple_sip_rs.Utils.{Channel, create_mpsc_bidirectional_unbounded}
use simple_sip_rs.Sip.{Rsip, Uri, Auth}
use simple_sip_rs.Media.TelephoneEvents.{Media, audio, telephone_event, output_empty}
use simple_sip_rs.Call.Session.{SessionParameters}
use simple_sip_rs.Call.Runtime.{
  Runtime, CallConnection, CallControl, hangup, audio_out_empty, finished,
}
use simple_sip_rs.Call.Handler
use simple_sip_rs.Call.Handler.{CallHandler}

-- `JoinHandle`
pub record Tasks : Type 1 where
  pub Handle : Type 0
  pub is_finished : Handle → Bool
  pub abort : Handle → Handle

-- `Either` of futures_util.
pub data Either (A B : Type 0) : Type 0 where
  left : A → Either A B
  right : B → Either A B

-- Which branch of a `select!` is taken.
pub data Ready : Type 0 where
  call_ready media_ready : Ready

abbrev pub is_finished_message : CallControl → Bool
is_finished_message finished = true
is_finished_message _ = false

abbrev pub is_output_empty : Media → Bool
is_output_empty output_empty = true
is_output_empty _ = false

module _ (t : Runtime) (tx : Sender Media) (rx : Receiver Media) (k : Tasks) where
  pub record Call : Type 0 where
    pub call_handle : k.Handle
    pub rtp_handle : k.Handle
    pub remote_uri : Uri
    pub call_channel : Channel t.control_tx t.control_rx
    pub media_channel : Channel tx rx

  -- What the two tasks start with.
  pub record Spawned : Type 0 where
    pub handler : CallHandler t
    pub media_end : Channel tx rx
    pub params : SessionParameters

  -- The ends of the four fresh channels and the handles of the spawned tasks are arguments.
  unfoldable pub new :
      Rsip
      → (t.control_tx.State × t.control_rx.State) × (t.control_tx.State × t.control_rx.State)
      → (tx.State × rx.State) × (tx.State × rx.State)
      → k.Handle × k.Handle
      → CallConnection t
      → SessionParameters
      → Call × Spawned
  new r (control0, control1) (media0, media1) (call_handle, rtp_handle) connection params =
      let (call_local, call_remote) =
        create_mpsc_bidirectional_unbounded t.control_tx t.control_rx control0 control1 in
      let (media_local, media_remote) = create_mpsc_bidirectional_unbounded tx rx media0 media1 in
      (
        record {
          call_handle = call_handle;
          rtp_handle = rtp_handle;
          remote_uri = params.remote.uri;
          call_channel = call_local;
          media_channel = media_local;
        },
        record {
          handler = Handler.new r t call_remote connection params;
          media_end = media_remote;
          params = params;
        },
      )

  abbrev receive_control : Call → Call × Option CallControl
  receive_control c =
      let (channel, m) = Utils.recv t.control_tx t.control_rx c.call_channel in
      (record c { call_channel = channel }, m)

  abbrev receive_media : Call → Call × Option Media
  receive_media c =
      let (channel, m) = Utils.recv tx rx c.media_channel in
      (record c { media_channel = channel }, m)

  -- A closed channel is asked again and again.
  abbrev pub until_finished : Call × Option CallControl → Call × Bool → Call × Bool
  until_finished (c, none) later = later
  until_finished (c, some m) later = if is_finished_message m then (c, true) else later

  -- The loop on fuel; the result says whether it has returned.
  unfoldable pub block_for_finished : ℕ → Call → Call × Bool
  block_for_finished zero c = (c, false)
  block_for_finished (suc fuel) c =
      let p = receive_control c in let later = block_for_finished fuel p.0 in until_finished p later

  abbrev until_empty : Call × Option Media → (Call → Call × Bool) → Call × Bool
  until_empty (c, none) later = later c
  until_empty (c, some m) later =
      let rest = later c in if is_output_empty m then (c, true) else rest

  -- The loop over a schedule; any control message ends it, and the closed channel too.
  unfoldable pub block_for_output_empty : Call → List Ready → Call × Bool
  block_for_output_empty c [] = (c, false)
  block_for_output_empty c (call_ready ∷ later) = ((receive_control c).0, true)
  block_for_output_empty c (media_ready ∷ later) =
      until_empty (receive_media c) (λ c'. block_for_output_empty c' later)

  unfoldable pub send_audio : Call → List ℕ → Call × Outcome (Unit {0})
  send_audio c samples =
      let (channel, done) = Utils.send tx rx c.media_channel (audio samples) in
      (record c { media_channel = channel }, done)

  unfoldable pub hang_up : Call → Call × Outcome (Unit {0})
  hang_up c =
      let (channel, done) = Utils.send t.control_tx t.control_rx c.call_channel hangup in
      (record c { call_channel = channel }, done)

  unfoldable pub recv : Call → Call × Option CallControl
  recv c = receive_control c

  unfoldable pub recv_media : Call → Call × Option Media
  recv_media c = receive_media c

  unfoldable pub recv_either : Call → Ready → Call × Either (Option CallControl) (Option Media)
  recv_either c call_ready = let (c', m) = receive_control c in (c', left m)
  recv_either c media_ready = let (c', m) = receive_media c in (c', right m)

  -- `remote_uri.auth.unwrap().user`
  unfoldable pub get_remote_uri : Call → Outcome Text
  get_remote_uri c = do a ← unwrap c.remote_uri.auth; ok a.user

  unfoldable pub is_finished : Call → Bool
  is_finished c =
      k.is_finished c.call_handle
      || (k.is_finished c.rtp_handle
          || (Utils.one_sided t.control_tx t.control_rx c.call_channel
              || Utils.one_sided tx rx c.media_channel))

  abbrev pub abort_running : k.Handle → k.Handle
  abort_running h = if k.is_finished h then h else k.abort h

  unfoldable pub drop : Call → Call
  drop c = record c {
    call_handle = abort_running c.call_handle;
    rtp_handle = abort_running c.rtp_handle;
  }
