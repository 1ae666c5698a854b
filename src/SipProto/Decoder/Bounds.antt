-- ===== src/SipProto/Decoder/Bounds.antt =====
-- What holds of every call of `decode` in src/sip_proto/sip_message_decoder.rs, on any bytes.
use mathlib.Core.List.{append_assoc}
use simple_sip_rs.Prelude.{
  ℕ, ◌+◌, ◌≡◌, if◌then◌else◌, refl, ap, ◌∙◌, subst, ok_some-injective, List, [], ◌∷◌, ◌++◌, Option,
  none, some, arith, inl, inr, ok, min,
}
use simple_sip_rs.Prelude.{
  ◌==◌, leb, Bool-cases, Option-cases, length, take, drop, length-take, take-append-drop, Text,
}
use simple_sip_rs.Sip.{
  SipMessage, request, response, message_body, message_headers, with_body, Header, content_length,
  same_kind,
}
use simple_sip_rs.SipProto.Decoder.{
  SipMessageDecoder, new, Decoded, body_length, declared_length, decode_body, parse_head,
  decode_head, decode, header_end, or_zero,
}
use simple_sip_rs.SipProto.Decoder.Framing.{decode_body_lem, header_end-le, header_end-take}

module _ (parse : Text → Option SipMessage) (length_of : Text → Option ℕ) where
  -- What the first of the Content-Length headers says, and 0 where there is none or it does not
  -- read as a number.
  abbrev content_length_of : List Header → ℕ
  content_length_of hs = first (content_lengths hs)
    where
      content_lengths : List Header → List Text
      content_lengths [] = []
      content_lengths (h ∷ hs) =
          let later = content_lengths hs in
          if same_kind h.kind content_length then h.value ∷ later else later

      first : List Text → ℕ
      first [] = 0
      first (v ∷ _) = or_zero (length_of v)

  declared_length_lem :
      (hs : List Header) → declared_length parse length_of hs ≡ content_length_of hs
  unfolding declared_length
  declared_length_lem [] = refl
  declared_length_lem (h ∷ hs) = elim (Bool-cases (same_kind h.kind content_length)) [
    | inl found ↦ rw found refl
    | inr other ↦ rw other (declared_length_lem hs)
  ]

  -- The result of a call on the buffer `src`: the pending message has no body yet, a returned
  -- message has a body of exactly the length that it declares, cut at 50,000 bytes, and what is
  -- left in the buffer is an end of what was there.
  pub record IsSound (src : Text) (r : Decoded) : Type 0 where
    pub pending_empty : (m : SipMessage) → r.decoder.pending_message ≡ some m → message_body m ≡ []
    pub body_exact :
        (m : SipMessage)
        → r.result ≡ ok (some m)
        → length (message_body m) ≡ min (content_length_of (message_headers m)) 50000
    pub used : Text
    pub used_front : used ++ r.src ≡ src

  with_body_exact :
      (m : SipMessage) (b : Text)
      → length b ≡ body_length parse length_of m
      → length (message_body (with_body m b))
        ≡ min (content_length_of (message_headers (with_body m b))) 50000
  with_body_exact (request r) b e = e ∙ ap (λ (x : ℕ). min x 50000) (declared_length_lem r.headers)
  with_body_exact (response r) b e = e ∙ ap (λ (x : ℕ). min x 50000) (declared_length_lem r.headers)

  decode_body-IsSound :
      (m : SipMessage) (src : Text)
      → message_body m ≡ []
      → IsSound src (decode_body parse length_of m src)
  decode_body-IsSound m src e =
      let n : ℕ = body_length parse length_of m in
      rw (decode_body_lem parse length_of m src e) (elim (Bool-cases (leb n (length src))) [
        | inl full ↦ rw full (record {
          pending_empty = λ m' q. ground arith;
          body_exact = λ m' q.
              subst
                (λ (x : SipMessage).
                  length (message_body x) ≡ min (content_length_of (message_headers x)) 50000)
                (ok_some-injective q)
                (with_body_exact m (take n src) (rw (length-take n src) (ground arith)));
          used = take n src;
          used_front = take-append-drop n src;
        })
        | inr short ↦ rw short (record {
          pending_empty = λ m' q. ground arith;
          body_exact = λ m' q. ground arith;
          used = [];
          used_front = refl;
        })
      ])

  nothing-IsSound :
      (src used rest : Text)
      → used ++ rest ≡ src
      → IsSound src (record { result = ok none; decoder = new; src = rest })
  nothing-IsSound src used rest e = record {
    pending_empty = λ m q. ground arith;
    body_exact = λ m q. ground arith;
    used = used;
    used_front = e;
  }

  parse_head-IsSound :
      (index : ℕ) (src : Text) (o : Option SipMessage)
      → ((m : SipMessage) → o ≡ some m → message_body m ≡ [])
      → IsSound src (parse_head parse length_of index src o)
  parse_head-IsSound index src none bare = record {
    pending_empty = λ m q. ground arith;
    body_exact = λ m q. ground arith;
    used = take index src;
    used_front = take-append-drop index src;
  }
  parse_head-IsSound index src (some m) bare =
      let s = decode_body-IsSound m (drop index src) (bare m refl) in
      record {
        pending_empty = s.pending_empty;
        body_exact = s.body_exact;
        used = take index src ++ s.used;
        used_front = rw (append_assoc, s.used_front) (take-append-drop index src);
      }

  -- What follows the blank line of the header block becomes the body: where nothing follows, the
  -- parsed message has none.
  abbrev pub IsBare : Type 0
  IsBare =
      (t : Text) (m : SipMessage)
      → header_end 0 t ≡ some (length t)
      → parse t ≡ some m
      → message_body m ≡ []

  block-IsBare :
      (index : ℕ) (src : Text) (m : SipMessage)
      → IsBare
      → header_end 0 src ≡ some index
      → parse (take index src) ≡ some m
      → message_body m ≡ []
  block-IsBare index src m bare found e =
      let l = header_end-le 0 src index found in
      let exact : 0 + index ≡ length (take index src) = rw (length-take index src) (ground arith) in
      let found' : header_end 0 src ≡ some (0 + index) = found ∙ ground arith in
      bare (take index src) m (header_end-take index 0 src found' ∙ ap some exact) e

  decode_head-IsSound :
      (src : Text) (o : Option ℕ)
      → IsBare
      → header_end 0 src ≡ o
      → IsSound src (decode_head parse length_of src o)
  decode_head-IsSound src none bare found = nothing-IsSound src [] src refl
  decode_head-IsSound src (some index) bare found = elim (Bool-cases (index == 4)) [
    | inl alive ↦ rw alive (nothing-IsSound src (take 4 src) (drop 4 src) (take-append-drop 4 src))
    | inr head ↦ rw head (
        parse_head-IsSound index src (parse (take index src))
          λ m e. block-IsBare index src m bare found e)
  ]

  -- On any bytes, a call of decode leaves a pending message with no body yet, returns only
  -- messages whose body is as long as their first Content-Length header says (0 where there is
  -- none or it does not read as a number), cut at 50,000 bytes, and leaves an end of the buffer.
  -- It assumes that the parser gives no body to a header block with nothing behind its first
  -- blank line, and that the pending message has none.
  pub decode-IsSound :
      (d : SipMessageDecoder) (src : Text)
      → IsBare
      → ((m : SipMessage) → d.pending_message ≡ some m → message_body m ≡ [])
      → IsSound src (decode parse length_of d src)
  unfolding decode
  decode-IsSound d src bare empty = elim (Option-cases d.pending_message) [
    | inl idle ↦ rw idle (decode_head-IsSound src (header_end 0 src) bare refl)
    | inr (m, pending) ↦ rw pending (decode_body-IsSound m src (empty m pending))
  ]
