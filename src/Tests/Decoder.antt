-- ===== src/Tests/Decoder.antt =====
-- A small message, cut into pieces.
use simple_sip_rs.Prelude.{ℕ, ◌≡◌, refl, [], ◌∷◌, ◌++◌, Option, none, some, ok, Text, arith}
use simple_sip_rs.Sip
use simple_sip_rs.Sip.{SipMessage, request, with_body, register, v2, message_body}
use simple_sip_rs.SipProto.Decoder.{new, header_end, is_blank_line, declared_length, decode}
use simple_sip_rs.SipProto.Decoder.Framing.{IsFrame}
use simple_sip_rs.SipProto.Decoder.Stream.{keep_alive_delays}
use simple_sip_rs.SipProto.Decoder.Reassembly.{Frame, read_chunks, stream_reassembled}
use simple_sip_rs.SipProto.Decoder.Bounds.{IsSound, IsBare, decode-IsSound}
use simple_sip_rs.Tests.Library.{plain_uri}

-- A message whose `Content-Length` reads as 3.
abbrev plain_message : SipMessage
plain_message = request (record {
  method = register;
  uri = plain_uri;
  version = v2;
  headers = record { kind = Sip.content_length; value = 3 ∷ [] } ∷ [];
  body = [];
})

abbrev parse : Text → Option SipMessage
parse t = some plain_message

abbrev length_of : Text → Option ℕ
length_of t = some 3

abbrev head : Text
head = 65 ∷ 13 ∷ 10 ∷ 13 ∷ 10 ∷ []

frame : IsFrame parse length_of head (7 ∷ 8 ∷ 9 ∷ []) plain_message
unfolding header_end is_blank_line declared_length
frame = record {
  ends = refl;
  no_keep_alive = omega arith;
  parses = refl;
  no_body = refl;
  body_fits = refl;
}

abbrev framed : Frame parse length_of
framed = record { head = head; body = 7 ∷ 8 ∷ 9 ∷ []; parsed = plain_message; is_frame = frame }

-- Two messages: the second chunk has the end of the first and the beginning of the second.
stream_reassembled_example :
    read_chunks parse length_of 3 new [] (
      (65 ∷ 13 ∷ [])
      ∷ (10 ∷ 13 ∷ 10 ∷ 7 ∷ 8 ∷ 9 ∷ 65 ∷ [])
      ∷ []
      ∷ (13 ∷ 10 ∷ 13 ∷ 10 ∷ 7 ∷ 8 ∷ 9 ∷ [])
      ∷ [])
    ≡ record {
      messages =
          with_body plain_message (7 ∷ 8 ∷ 9 ∷ []) ∷ with_body plain_message (7 ∷ 8 ∷ 9 ∷ []) ∷ [];
      decoder = new;
      src = [];
    }
stream_reassembled_example =
    stream_reassembled parse length_of 3 (framed ∷ framed ∷ [])
      ((65 ∷ 13 ∷ [])
        ∷ (10 ∷ 13 ∷ 10 ∷ 7 ∷ 8 ∷ 9 ∷ 65 ∷ [])
        ∷ []
        ∷ (13 ∷ 10 ∷ 13 ∷ 10 ∷ 7 ∷ 8 ∷ 9 ∷ [])
        ∷ [])
      refl (omega arith)

keep_alive_delays_example :
    let r = decode parse length_of new (13 ∷ 10 ∷ 13 ∷ 10 ∷ (head ++ (7 ∷ 8 ∷ 9 ∷ []))) in
    (r.result ≡ ok none)
    × (decode parse length_of r.decoder r.src ≡ record {
      result = ok (some (with_body plain_message (7 ∷ 8 ∷ 9 ∷ [])));
      decoder = new;
      src = [];
    })
keep_alive_delays_example = keep_alive_delays parse length_of frame []

bare : IsBare parse length_of
bare t m block e = ground arith

idle : (m : SipMessage) → new.pending_message ≡ some m → message_body m ≡ []
idle m e = ground arith

decode-IsSound_example : IsSound parse length_of head (decode parse length_of new head)
decode-IsSound_example = decode-IsSound parse length_of new head bare idle
