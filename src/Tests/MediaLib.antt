-- ===== src/Tests/MediaLib.antt =====
-- Concrete media libraries, sockets and tasks that meet the laws of the interfaces: a packet is its
-- payload type and its payload, a coded sample is the sample.
use simple_sip_rs.Prelude.{
  ℕ, refl, Bool, true, List, [], ◌∷◌, ◌++◌, Option, none, some, Text, length,
}
use simple_sip_rs.Channels.{Sender, IsSender, Receiver}
use simple_sip_rs.Media.Libraries.{RtpLib, OpusLib, Fon, MediaLib, IsMediaLib}
use simple_sip_rs.Media.TelephoneEvents.{Media}
use simple_sip_rs.Call.RtpSession.{Udp}
use simple_sip_rs.Call.Ongoing.{Tasks}
use simple_sip_rs.Tests.Library.{Log, log_sender, log_sender-IsSender, list_receiver}

abbrev unmarshal : Text → Option (ℕ × Text)
unmarshal [] = none
unmarshal (n ∷ t) = some (n, t)

abbrev packetize : ℕ → Text → List (ℕ × Text)
packetize n [] = []
packetize n (x ∷ t) = (n, x ∷ t) ∷ []

abbrev rtp : RtpLib
rtp = record {
  Packet = ℕ × Text;
  payload_type = λ p. p.0;
  payload = λ p. p.1;
  marshal = λ p. some (p.0 ∷ p.1);
  unmarshal = unmarshal;
  Packetizer = ℕ;
  new_packetizer = λ payloader size payload_type rate seed. payload_type;
  packetize = λ p t n. (p, some (packetize p t));
}

-- An encoder is what it has heard.
abbrev opus : OpusLib
opus = record {
  Decoder = ℕ;
  Encoder = List ℕ;
  new_decoder = λ rate channels. some rate;
  new_encoder = λ rate channels. some [];
  get_nb_samples = λ d t. some (length t);
  decode_float = λ d t n. (d, some t);
  encode_vec_float = λ e samples n. (e ++ samples, some samples);
  heard = λ e. e;
}

abbrev fon : Fon
fon = record { to_stereo_48k = λ rate xs. xs; from_stereo_48k = λ rate xs. xs }

abbrev pub media_lib : MediaLib
media_lib = record { rtp = rtp; opus = opus; fon = fon }

pub media_lib-IsMediaLib : IsMediaLib media_lib
media_lib-IsMediaLib = record {
  packetize_nil = λ p n. refl;
  from_stereo_nil = λ rate. refl;
  heard_encode = λ e samples n. refl;
}

-- A socket is what has been sent on it.
abbrev pub udp : Udp
udp = record {
  Socket = List Text;
  bind = λ port. some [];
  send_to = λ s b addr. (s ++ b ∷ [], true);
}

abbrev pub media_tx : Sender Media
media_tx = log_sender Media

abbrev pub media_rx : Receiver Media
media_rx = list_receiver Media

pub media_tx-IsSender : IsSender media_tx
media_tx-IsSender = log_sender-IsSender

abbrev pub open_media : Log Media
open_media = record { open_end = true; items = [] }

-- A task is whether it has ended.
abbrev pub tasks : Tasks
tasks = record { Handle = Bool; is_finished = λ h. h; abort = λ h. true }
