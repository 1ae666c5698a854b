-- ===== src/SipProto/Decoder/Stream.antt =====
-- A stream of SIP messages as src/sip_proto/sip_message_decoder.rs sees it: in chunks, with
-- keep-alives between the messages, and with bodies of any declared length.
use simple_sip_rs.Prelude.{
  ℕ, ◌+◌, ◌<◌, ◌≡◌, refl, sym, ap, ◌∙◌, List, [], ◌∷◌, ◌++◌, Option, none, some, arith, inl, inr,
  ◌⊎◌, Outcome, ok, length, length-append, Text,
}
use mathlib.Core.List.{append_assoc, append_cancel_left}
use simple_sip_rs.Sip.{SipMessage, with_body}
use simple_sip_rs.SipProto.Decoder.{
  SipMessageDecoder, new, Decoded, decode, header_end, is_blank_line,
}
use simple_sip_rs.SipProto.Decoder.Framing.{
  IsFrame, waiting, cut, decode_early, decode_headed, decode_body_short, decode_body_full,
}

abbrev read_on : Outcome (Option SipMessage) → Decoded → Decoded → Decoded
read_on (ok none) now later = later
read_on _ now later = now

module _ (parse : Text → Option SipMessage) (length_of : Text → Option ℕ) where
  -- How a framed reader drives the decoder: each chunk that arrives is put behind what is left of
  -- the buffer, and reading goes on while `decode` returns `Ok(None)`.
  unfoldable pub deliver : SipMessageDecoder → Text → List Text → Decoded
  deliver d src [] = record { result = ok none; decoder = d; src = src }
  deliver d src (c ∷ cs) =
      let r = decode parse length_of d (src ++ c) in read_on r.result r (deliver r.decoder r.src cs)

  abbrev pub concat : List Text → Text
  concat [] = []
  concat (c ∷ cs) = c ++ concat cs

  shorter : (y s b : Text) → y ++ s ≡ b → 0 < length s → length y < length b
  shorter y s b t pos = omega (arith, length-append y s, ap length t)

  module _ {h b : Text} {m : SipMessage} (f : IsFrame parse length_of h b m) where
    -- The decoder and the buffer when the bytes `p` of the frame have arrived.
    abbrev pub Partial : Text → SipMessageDecoder → Text → Type 0
    Partial p d src = ((d ≡ new) × (src ≡ p)) ⊎ ((d ≡ waiting parse length_of f) × (h ++ src ≡ p))

    -- While bytes of the frame are missing a call returns nothing, and keeps them all.
    pub waits_step :
        (p c s : Text) (d : SipMessageDecoder) (src : Text)
        → Partial p d src
        → (p ++ c) ++ s ≡ h ++ b
        → 0 < length s
        → let r = decode parse length_of d (src ++ c) in
          (r.result ≡ ok none) × Partial (p ++ c) r.decoder r.src
    unfolding decode
    waits_step p c s d src (inl (fresh, all_kept)) e pos =
        rw (fresh, all_kept)
          (elim (cut (p ++ c) s h b e) [
            | inl (s', q, l) ↦
                rw (decode_early parse length_of f (p ++ c) s' q l) (refl, inl (refl, refl))
            | inr (y, q, t) ↦
                rw
                  (
                    q,
                    decode_headed parse length_of f y,
                    decode_body_short parse length_of f y (shorter y s b t pos),
                  )
                  (refl, inr (refl, refl))
          ])
    waits_step p c s d src (inr (pending, all_kept)) e pos =
        rw
          (
            pending,
            decode_body_short parse length_of f (src ++ c) (shorter (src ++ c) s b behind pos),
          )
          (refl, inr (refl, sym (append_assoc h src c) ∙ ap (λ (t : Text). t ++ c) all_kept))
      where
        behind : (src ++ c) ++ s ≡ b
        behind = append_cancel_left h _ _ (rw (← append_assoc, ← append_assoc, all_kept) e)

    pub waits_end :
        (p c rest : Text) (d : SipMessageDecoder) (src : Text)
        → Partial p d src
        → p ++ c ≡ h ++ (b ++ rest)
        → decode parse length_of d (src ++ c)
          ≡ record { result = ok (some (with_body m b)); decoder = new; src = rest }
    unfolding decode
    waits_end p c rest d src (inl (fresh, all_kept)) e =
        rw (fresh, all_kept, e)
          (decode_headed parse length_of f (b ++ rest) ∙ decode_body_full parse length_of f rest)
    waits_end p c rest d src (inr (pending, all_kept)) e =
        rw (pending, behind) (decode_body_full parse length_of f rest)
      where
        behind : src ++ c ≡ b ++ rest
        behind = append_cancel_left h _ _ (rw (← append_assoc h src c, all_kept) e)

    deliver_from :
        (p : Text) (cs : List Text) (last rest : Text) (d : SipMessageDecoder) (src : Text)
        → Partial p d src
        → p ++ (concat cs ++ last) ≡ h ++ (b ++ rest)
        → length (p ++ concat cs) < length h + length b
        → deliver d src (cs ++ last ∷ [])
          ≡ record { result = ok (some (with_body m b)); decoder = new; src = rest }
    unfolding deliver
    deliver_from p [] last rest d src w e l = rw (deliver, waits_end p last rest d src w e)
    deliver_from p (c ∷ cs) last rest d src w e l =
        let r = decode parse length_of d (src ++ c) in
        let st = next (cut (p ++ c) (concat cs ++ last) (h ++ b) rest split) in
        rw st.0 (
          deliver_from (p ++ c) cs last rest r.decoder r.src st.1
            (rw append_assoc (rw append_assoc at e)) (rw append_assoc l))
      where
        split : (p ++ c) ++ (concat cs ++ last) ≡ (h ++ b) ++ rest
        split = simp append_assoc (simp append_assoc at e)

        next :
            ((s' : Text) × ((p ++ c) ++ s' ≡ h ++ b) × (0 < length s'))
              ⊎ ((y : Text) × (p ++ c ≡ (h ++ b) ++ y) × (y ++ (concat cs ++ last) ≡ rest))
            → let r = decode parse length_of d (src ++ c) in
              (r.result ≡ ok none) × Partial (p ++ c) r.decoder r.src
        next (inl (s', q, pos)) = waits_step p c s' d src w q pos
        next (inr (y, q, t)) = absurd (omega (arith, length-append {0}, ap length q))

    -- For a frame (a header block with its only blank line at the end, which parses to a message
    -- with no body, and a body of the length that the decoder takes), in whatever pieces it
    -- arrives, the decoder returns the message with exactly that body when the last piece is
    -- there and nothing before, keeps the bytes behind it in the buffer, and is ready for the
    -- next message.
    pub deliver-frame :
        (cs : List Text) (last rest : Text)
        → concat cs ++ last ≡ h ++ (b ++ rest)
        → length (concat cs) < length h + length b
        → deliver new [] (cs ++ last ∷ [])
          ≡ record { result = ok (some (with_body m b)); decoder = new; src = rest }
    deliver-frame cs last rest e l = deliver_from [] cs last rest new [] (inl (refl, refl)) e l

    -- With a keep-alive and a complete frame behind it in the buffer, the call of decode that
    -- takes the keep-alive returns nothing, and the next call returns the message.
    pub keep_alive_delays :
        (rest : Text)
        → let r = decode parse length_of new (13 ∷ 10 ∷ 13 ∷ 10 ∷ (h ++ (b ++ rest))) in
          (r.result ≡ ok none)
          × (decode parse length_of r.decoder r.src
              ≡ record { result = ok (some (with_body m b)); decoder = new; src = rest })
    unfolding decode header_end is_blank_line
    keep_alive_delays rest = (
      refl,
      decode_headed parse length_of f (b ++ rest) ∙ decode_body_full parse length_of f rest,
    )
