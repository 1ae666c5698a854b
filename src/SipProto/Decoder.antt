-- ===== src/SipProto/Decoder.antt =====
-- src/sip_proto/sip_message_decoder.rs: the codec that cuts the bytes of the TCP stream into SIP
-- messages. `SipMessage::try_from` and the length of a `Content-Length` header are `rsip`'s, and
-- enter as parameters.
pub mod Framing
pub mod Stream
pub mod Reassembly
pub mod Bounds
use simple_sip_rs.Prelude.{
  ℕ, ◌+◌, ◌*◌, min, Bool, true, false, ◌&&◌, List, [], ◌∷◌, ◌++◌, Option, none, some,
}
use simple_sip_rs.Prelude.{◌==◌, leb, if◌then◌else◌, length, take, drop, Text, Outcome, ok, panic}
use simple_sip_rs.Sip.{
  SipMessage, HeaderKind, content_length, same_kind, Header, message_headers, message_body,
  with_body,
}

abbrev pub max_content_length : ℕ
max_content_length = 50 * 1000

pub record SipMessageDecoder : Type 0 where
  pub pending_message : Option SipMessage

abbrev pub new : SipMessageDecoder
new = record { pending_message = none }

-- `matches!(w, b"\r\n\r\n")`
unfoldable pub is_blank_line : ℕ → ℕ → ℕ → ℕ → Bool
is_blank_line a b c d = (a == 13) && (b == 10) && (c == 13) && (d == 10)

-- The first window of four bytes that is a blank line, and the position behind it; `ix` counts the
-- windows before.
unfoldable pub header_end : ℕ → Text → Option ℕ
header_end ix (a ∷ b ∷ c ∷ d ∷ rest) =
    let later = header_end (ix + 1) (b ∷ c ∷ d ∷ rest) in
    if is_blank_line a b c d then some (ix + 4) else later
header_end ix _ = none

-- What a call of `decode` leaves: its result, the decoder and the buffer.
pub record Decoded : Type 0 where
  pub result : Outcome (Option SipMessage)
  pub decoder : SipMessageDecoder
  pub src : Text

-- `unwrap_or(0)`
abbrev pub or_zero : Option ℕ → ℕ
or_zero none = 0
or_zero (some n) = n

module _ (parse : Text → Option SipMessage) (length_of : Text → Option ℕ) where
  -- The `find_map` over the headers, and both `unwrap_or(0)`.
  unfoldable pub declared_length : List Header → ℕ
  declared_length [] = 0
  declared_length (h ∷ hs) =
      let later = declared_length hs in
      if same_kind h.kind content_length then or_zero (length_of h.value) else later

  abbrev pub body_length : SipMessage → ℕ
  body_length m = min (declared_length (message_headers m)) max_content_length

  -- The second part of `decode`: the body of the pending message.
  unfoldable pub decode_body : SipMessage → Text → Decoded
  decode_body message src =
      let n : ℕ = body_length message in
      let full : Bool = leb n (length src) in
      let message' =
        if full then with_body message (message_body message ++ take n src) else message in
      let src' : Text = if full then drop n src else src in
      if length (message_body message') == n
      then record { result = ok (some message'); decoder = new; src = src' }
      else record {
        result = ok none;
        decoder = record { pending_message = some message' };
        src = src';
      }

  -- The first part: a header block, or a keep-alive, from the front of the buffer.
  abbrev pub parse_head : ℕ → Text → Option SipMessage → Decoded
  parse_head index src none = record { result = panic; decoder = new; src = drop index src }
  parse_head index src (some message) = decode_body message (drop index src)

  abbrev pub decode_head : Text → Option ℕ → Decoded
  decode_head src none = record { result = ok none; decoder = new; src = src }
  decode_head src (some index) =
      if index == 4
      then record { result = ok none; decoder = new; src = drop 4 src }
      else parse_head index src (parse (take index src))

  abbrev decode_from : Option SipMessage → Text → Decoded
  decode_from none src = decode_head src (header_end 0 src)
  decode_from (some message) src = decode_body message src

  unfoldable pub decode : SipMessageDecoder → Text → Decoded
  decode d src = decode_from d.pending_message src
