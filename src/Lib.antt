-- ===== src/Lib.antt =====
-- A model of simple-sip-rs, a client library for SIP calls over TCP with audio over RTP, and the
-- theorems about it.
--
-- The parts and their files (paths from the repository's root):
-- - src/sip_proto/sip_message_decoder.rs cuts the TCP stream into messages: SipProto/Decoder.antt.
-- - src/context.rs hands out local RTP ports: Context.antt. src/config.rs: Config.antt and
--   Config/Headers.antt.
-- - src/sip_proto/register.rs builds REGISTER requests and answers digest challenges:
--   SipProto/Register.antt. src/sip_proto/mod.rs: SipProto/Allow.antt. src/sip_proto/sdp.rs and
--   what each codec adds to a session description: SipProto/Sdp.antt and Media/Features.antt.
-- - src/call/session_parameters.rs keeps the parameters of a dialog and writes the headers of its
--   messages: Call/Session.antt and Call/Dialog.antt.
-- - src/utils.rs and src/connection/call_connection.rs: Utils.antt and Call/Runtime.antt, over the
--   interface of channels in Channels.antt.
-- - src/call/call_handler.rs runs an answered call: Call/Handler.antt. Its `select!` is a schedule
--   that says which branch is ready.
-- - src/call/outgoing_call.rs: Call/Outgoing.antt builds and sends the requests, and
--   Call/Outgoing/Answer.antt takes the responses. src/call/incoming_call.rs: Call/Incoming.antt.
-- - src/sip_proto/options.rs answers OPTIONS: SipProto/Options.antt.
-- - src/connection/sip_socket.rs registers and hands messages to calls: Connection/Socket.antt (the
--   registration) and Connection/Socket/Messages.antt (the handlers and the loop, over a schedule of
--   ready branches). src/connection/socket_data.rs: Connection/SocketData.antt.
-- - src/media/pcmu.rs and src/media/pcma.rs: one sample through mu-law and A-law, Media/Pcmu/G711.antt
--   and Media/Pcma/G711.antt. The codec around them, which is the same in both, is in
--   Media/G711Codec.antt; Media/Pcmu/Codec.antt and Media/Pcma/Codec.antt give it its coding.
--   src/media/opus.rs: Media/Opus.antt. src/media/telephone_events.rs: Media/TelephoneEvents.antt.
--   How a codec finds its line in a session description: Media/Offers.antt. src/media/mod.rs, the
--   codecs of a call under one trait: Media/Codecs.antt.
-- - src/call/rtp_session.rs carries the audio between the user, the codecs and the UDP socket:
--   Call/RtpSession.antt, and Call/RtpSession/Task.antt with its loop, over a schedule of ticks,
--   datagrams and messages.
-- - src/call/mod.rs, the user's handle of a running call: Call/Ongoing.antt.
-- - src/manager.rs, the session of a user with the server: Manager.antt and Manager/Placing.antt. It
--   opens the socket by `connect` of Connection/Socket/Opening.antt.
-- - examples/cli.rs, a softphone on a terminal that uses all of this: Cli.antt (the audio callbacks and
--   the messages of the call), Cli/Commands.antt (the commands) and Cli/Session.antt (the loop of
--   `main`, over a schedule of events).
--
-- The theorems about a part stand in the files of the folder that is named for it.
--
-- How the model stands to the code. A method that changes its object returns the new record with its
-- outcome: a value, an error that `?` passes on, or a panic (Prelude/Results.antt). Strings and
-- buffers are lists of bytes. Machine integers are natural numbers with their wrap-around written
-- out, as in a release build; an `i16` is its bit pattern. Random identifiers are arguments.
--
-- Libraries enter as interfaces whose laws state their documented behaviour: `rsip` (Sip/Library.antt;
-- the message types with the fields that the code names are in Sip/Types.antt), `webrtc_sdp`
-- (Sdp.antt), tokio's channels (Channels.antt), MD5 (SipProto/Register.antt) and the parser of a
-- message in the decoder; the audio libraries (Media/Libraries.antt), the UDP socket
-- (Call/RtpSession.antt) and tokio's tasks (Call/Ongoing.antt). Tests/Library.antt and
-- Tests/MediaLib.antt have instances that meet the laws, and Tests has the theorems at inputs.
--
-- Fuel: the loop of `peek_call_response` takes fuel, and more fuel than messages to pass over is
-- enough; so it is for the search for a CANCEL in `get_cancel_request`, and for
-- `block_for_finished`, which otherwise runs on. A reader that asks the decoder until it returns
-- none needs more rounds than there are messages in the chunk. `read_next_message` needs one round
-- for a message that is there; after the end of the stream no fuel is enough, and the registration,
-- `connect` and `start` pass its fuel on. The mu-law loop has eight rounds and the A-law loop six;
-- `segment_fuel` and `halve_fuel` say that this is enough for every value that reaches them.
--
-- Where code shares an object by a lock, the record of its user keeps it: the context stands in the
-- manager's record and the socket's. A call that is placed returns the changed context.
--
-- The 20 seconds that the softphone waits for an answer are a number of messages that arrive in them.
-- A call that it places shares the manager's handle of the channel to the socket; a call that it
-- accepts brings its own.
--
-- Not modelled: the audio devices and the terminal of examples/cli.rs and the opening of its session;
-- log output; the closing of the UDP socket when a session is dropped.
pub mod Prelude
pub mod Media
pub mod Config
pub mod Connection
pub mod Context
pub mod Sip
pub mod Sdp
pub mod SipProto
pub mod Channels
pub mod Cli
pub mod Utils
pub mod Call
pub mod Manager
mod Tests
