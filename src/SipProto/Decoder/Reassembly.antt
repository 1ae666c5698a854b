-- ===== src/SipProto/Decoder/Reassembly.antt =====
-- A stream of many messages, in whatever pieces it reaches src/sip_proto/sip_message_decoder.rs.
use simple_sip_rs.Prelude.{
  ℕ, zero, suc, ◌+◌, ◌<◌, ◌≡◌, refl, sym, ap, ap₂, ◌∙◌, List, [], ◌∷◌, ◌++◌, Option, none, some,
  map, arith, inl, inr, Outcome, ok, length, length-append, Text,
}
use mathlib.Core.List.{map-append, append_assoc}
use simple_sip_rs.Sip.{SipMessage, with_body}
use simple_sip_rs.SipProto.Decoder.{SipMessageDecoder, new, Decoded, decode, header_end}
use simple_sip_rs.SipProto.Decoder.Framing.{IsFrame, cut}
use simple_sip_rs.SipProto.Decoder.Stream.{concat, Partial, waits_step, waits_end}

-- The messages that were read, and what is left: the decoder and the buffer.
pub record Read : Type 0 where
  pub messages : List SipMessage
  pub decoder : SipMessageDecoder
  pub src : Text

module _ (parse : Text → Option SipMessage) (length_of : Text → Option ℕ) where
  pub record Frame : Type 0 where
    pub head : Text
    pub body : Text
    pub parsed : SipMessage
    pub is_frame : IsFrame parse length_of head body parsed

  abbrev pub wire : List Frame → Text
  wire [] = []
  wire (f ∷ fs) = f.head ++ (f.body ++ wire fs)

  abbrev pub message_of : Frame → SipMessage
  message_of f = with_body f.parsed f.body

  abbrev go_on : Outcome (Option SipMessage) → Decoded → Read → Read
  go_on (ok (some m)) r later = record later { messages = m ∷ later.messages }
  go_on _ r later = record { messages = []; decoder = r.decoder; src = r.src }

  -- A framed reader asks the decoder again after each message, until it returns none.
  unfoldable pub read_all : ℕ → SipMessageDecoder → Text → Read
  read_all zero d src = record { messages = []; decoder = d; src = src }
  read_all (suc fuel) d src =
      let r = decode parse length_of d src in
      let later = read_all fuel r.decoder r.src in go_on r.result r later

  -- It puts each chunk that arrives behind what is left of the buffer.
  unfoldable pub read_chunks : ℕ → SipMessageDecoder → Text → List Text → Read
  read_chunks fuel d src [] = record { messages = []; decoder = d; src = src }
  read_chunks fuel d src (c ∷ cs) =
      let x = read_all fuel d (src ++ c) in
      let later = read_chunks fuel x.decoder x.src cs in
      record later { messages = x.messages ++ later.messages }

  -- Where these frames are to come, of which the bytes `p` are there.
  abbrev Between : List Frame → Text → SipMessageDecoder → Text → Type 0
  Between [] p d src = (d ≡ new) × (src ≡ []) × (p ≡ [])
  Between (f ∷ fs) p d src =
      Partial parse length_of f.is_frame p d src × (length p < length f.head + length f.body)

  fresh-Between : (fs : List Frame) → Between fs [] new []
  fresh-Between [] = (refl, refl, refl)
  fresh-Between (f ∷ fs) = let long = f.is_frame.no_keep_alive in (inl (refl, refl), omega arith)

  nil-append : (xs ys : Text) → xs ++ ys ≡ [] → (xs ≡ []) × (ys ≡ [])
  nil-append [] ys e = (refl, e)
  nil-append (x ∷ xs) ys e = absurd (ground (arith, e))

  -- What a reader that has put a chunk behind its buffer has read, where `s` is still to come.
  abbrev Reads : List Frame → Text → Read → Type 0
  Reads fs s x =
      (done left : List Frame) × (p : Text) × (fs ≡ done ++ left)
      × (x.messages ≡ map message_of done)
      × Between left p x.decoder x.src
      × (p ++ s ≡ wire left)

  read_idle : (fuel : ℕ) (c s : Text) → c ++ s ≡ [] → Reads [] s (read_all (suc fuel) new c)
  unfolding read_all decode header_end
  read_idle fuel c s e =
      let (no_chunk, no_rest) = nil-append c s e in
      rw no_chunk ([], [], [], refl, refl, (refl, refl, refl), no_rest)

  idle_step :
      (fuel : ℕ) (d : SipMessageDecoder) (src : Text)
      → let r = decode parse length_of d src in
        r.result ≡ ok none
        → read_all (suc fuel) d src ≡ record { messages = []; decoder = r.decoder; src = r.src }
  unfolding read_all
  idle_step fuel d src e = rw e

  message_step :
      (fuel : ℕ) (d : SipMessageDecoder) (src rest : Text) (m : SipMessage)
      → decode parse length_of d src ≡ record { result = ok (some m); decoder = new; src = rest }
      → let later = read_all fuel new rest in
        read_all (suc fuel) d src ≡ record later { messages = m ∷ later.messages }
  unfolding read_all
  message_step fuel d src rest m e = rw e

  read-Reads :
      (fuel : ℕ) (fs : List Frame) (p c s : Text) (d : SipMessageDecoder) (src : Text)
      → Between fs p d src
      → p ++ (c ++ s) ≡ wire fs
      → length fs < fuel
      → Reads fs s (read_all fuel d (src ++ c))
  read-Reads zero fs p c s d src w e l = absurd (omega arith)
  read-Reads (suc fuel) [] p c s d src (fresh, no_bytes, none_there) e l =
      rw (fresh, no_bytes) (read_idle fuel c s (rw none_there at e))
  read-Reads (suc fuel) (f ∷ fs) p c s d src (w, short) e l =
      let all : (p ++ c) ++ s ≡ (f.head ++ f.body) ++ wire fs =
        append_assoc p c s ∙ e ∙ sym (append_assoc f.head f.body (wire fs)) in
      elim (cut (p ++ c) s (f.head ++ f.body) (wire fs) all) [
        | inl (s', q, pos) ↦
            let (none_yet, w') = waits_step parse length_of f.is_frame p c s' d src w q pos in
            let shorter : length (p ++ c) < length f.head + length f.body =
              omega (arith, length-append (p ++ c) s', length-append f.head f.body, ap length q) in
            rw (idle_step fuel d (src ++ c) none_yet)
              ([], f ∷ fs, p ++ c, refl, refl, (w', shorter), append_assoc p c s ∙ e)
        | inr (y, q, t) ↦
            let found =
              waits_end parse length_of f.is_frame p c y d src w
                (q ∙ append_assoc f.head f.body y) in
            let (done, left, p', split, read, w', rest) =
              read-Reads fuel fs [] y s new [] (fresh-Between fs) t (omega arith) in
            rw (message_step fuel d (src ++ c) y (message_of f) found) (
              f ∷ done,
              left,
              p',
              ap (λ (l : List Frame). f ∷ l) split,
              ap (λ (l : List SipMessage). message_of f ∷ l) read,
              w',
              rest,
            )
      ]

  -- All bytes are there: so are all messages.
  at_end :
      (fs : List Frame) (p : Text) (d : SipMessageDecoder) (src : Text)
      → Between fs p d src
      → p ++ [] ≡ wire fs
      → ([] ≡ map message_of fs) × (d ≡ new) × (src ≡ [])
  at_end [] p d src (fresh, no_bytes, _) e = (refl, fresh, no_bytes)
  at_end (f ∷ fs) p d src (w, short) e = absurd (
      omega (
        arith,
        length-append p [],
        length-append f.head (f.body ++ wire fs),
        length-append f.body (wire fs),
        ap length e,
      ))

  chunks_lem :
      (fuel : ℕ) (fs : List Frame) (cs : List Text) (p : Text) (d : SipMessageDecoder) (src : Text)
      → Between fs p d src
      → p ++ concat parse length_of cs ≡ wire fs
      → length fs < fuel
      → let x = read_chunks fuel d src cs in
        (x.messages ≡ map message_of fs) × (x.decoder ≡ new) × (x.src ≡ [])
  unfolding read_chunks
  chunks_lem fuel fs [] p d src w e l = at_end fs p d src w e
  chunks_lem fuel fs (c ∷ cs) p d src w e l =
      let x = read_all fuel d (src ++ c) in
      let (done, left, p', split, read, w', rest) =
        read-Reads fuel fs p c (concat parse length_of cs) d src w e l in
      let fewer : length left < fuel = omega (arith, length-append done left, ap length split) in
      let (ms, fresh, no_bytes) = chunks_lem fuel left cs p' x.decoder x.src w' rest fewer in
      (
        ap₂ (λ (a b : List SipMessage). a ++ b) read ms
            ∙ sym (map-append message_of done left)
            ∙ ap (map message_of) (sym split),
        fresh,
        no_bytes,
      )

  -- For any list of frames (each a header block with its only blank line at the end, which parses
  -- to a message with no body, and a body of the length that the decoder takes), in whatever
  -- pieces their bytes arrive, a reader that asks the decoder again after each message reads
  -- exactly the messages of the frames with their bodies, in order, and leaves a fresh decoder
  -- and an empty buffer. The rounds after a chunk are bounded by fuel, and more fuel than there
  -- are frames is enough.
  pub stream_reassembled :
      (fuel : ℕ) (fs : List Frame) (cs : List Text)
      → concat parse length_of cs ≡ wire fs
      → length fs < fuel
      → read_chunks fuel new [] cs
        ≡ record { messages = map message_of fs; decoder = new; src = [] }
  stream_reassembled fuel fs cs e l =
      let (ms, fresh, no_bytes) = chunks_lem fuel fs cs [] new [] (fresh-Between fs) e l in
      rw (← ms, fresh, no_bytes) refl
