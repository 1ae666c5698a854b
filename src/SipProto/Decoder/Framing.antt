-- ===== src/SipProto/Decoder/Framing.antt =====
-- How src/sip_proto/sip_message_decoder.rs cuts a stream into messages: whole messages, messages
-- that arrive in pieces, and keep-alives.
use simple_sip_rs.Prelude.{
  ℕ, zero, suc, ◌+◌, ◌≤◌, ◌<◌, ◌≡◌, refl, sym, ◌∙◌, true, false, [], ◌∷◌, ◌++◌, Option, none, some,
  arith, inl, inr, ◌⊎◌,
}
use simple_sip_rs.Prelude.{
  ◌==◌, leb, if◌then◌else◌, Bool-cases, Option-cases, length, take, drop, length-append,
  length-take, take-append, drop-append, Text, ok,
}
use simple_sip_rs.Sip.{SipMessage, request, response, message_body, with_body}
use simple_sip_rs.SipProto.Decoder.{
  SipMessageDecoder, new, header_end, body_length, decode_body, decode,
}

message_body-with_body : (m : SipMessage) (b : Text) → message_body (with_body m b) ≡ b
message_body-with_body (request r) b = refl
message_body-with_body (response r) b = refl

-- The blank line that ends a header block is found at the same place whatever follows.
pub header_end-append :
    (ix : ℕ) (h t : Text) (n : ℕ) → header_end ix h ≡ some n → header_end ix (h ++ t) ≡ some n
unfolding header_end
header_end-append ix [] t n e = ground arith
header_end-append ix (a ∷ []) t n e = ground arith
header_end-append ix (a ∷ b ∷ []) t n e = ground arith
header_end-append ix (a ∷ b ∷ c ∷ []) t n e = ground arith
header_end-append ix (a ∷ b ∷ c ∷ d ∷ r) t n e =
    ground (arith, header_end-append (ix + 1) (b ∷ c ∷ d ∷ r) t n)

pub header_end-le : (ix : ℕ) (h : Text) (n : ℕ) → header_end ix h ≡ some n → n ≤ ix + length h
unfolding header_end
header_end-le ix [] n e = ground arith
header_end-le ix (a ∷ []) n e = ground arith
header_end-le ix (a ∷ b ∷ []) n e = ground arith
header_end-le ix (a ∷ b ∷ c ∷ []) n e = ground arith
header_end-le ix (a ∷ b ∷ c ∷ d ∷ r) n e = ground (arith, header_end-le (ix + 1) (b ∷ c ∷ d ∷ r) n)

pub header_end-ge : (ix : ℕ) (h : Text) (n : ℕ) → header_end ix h ≡ some n → ix + 4 ≤ n
unfolding header_end
header_end-ge ix [] n e = ground arith
header_end-ge ix (a ∷ []) n e = ground arith
header_end-ge ix (a ∷ b ∷ []) n e = ground arith
header_end-ge ix (a ∷ b ∷ c ∷ []) n e = ground arith
header_end-ge ix (a ∷ b ∷ c ∷ d ∷ r) n e = ground (arith, header_end-ge (ix + 1) (b ∷ c ∷ d ∷ r) n)

-- Cut behind its first blank line, a text has that blank line at its end.
pub header_end-take :
    (k ix : ℕ) (h : Text)
    → header_end ix h ≡ some (ix + k)
    → header_end ix (take k h) ≡ some (ix + k)
unfolding header_end
header_end-take zero ix h e = absurd (let l = header_end-ge ix h _ e in omega arith)
header_end-take (suc zero) ix h e = absurd (let l = header_end-ge ix h _ e in omega arith)
header_end-take (suc (suc zero)) ix h e = absurd (let l = header_end-ge ix h _ e in omega arith)
header_end-take (suc (suc (suc zero))) ix h e =
    absurd (let l = header_end-ge ix h _ e in omega arith)
header_end-take (suc (suc (suc (suc k)))) ix [] e = ground arith
header_end-take (suc (suc (suc (suc k)))) ix (a ∷ []) e = ground arith
header_end-take (suc (suc (suc (suc k)))) ix (a ∷ b ∷ []) e = ground arith
header_end-take (suc (suc (suc (suc k)))) ix (a ∷ b ∷ c ∷ []) e = ground arith
header_end-take (suc (suc (suc (suc k)))) ix (a ∷ b ∷ c ∷ d ∷ r) e =
    ground (arith, header_end-take (suc (suc (suc k))) (ix + 1) (b ∷ c ∷ d ∷ r))

-- A block whose only blank line is at its end shows none before that end.
header_end_prefix :
    (p s : Text)
    → header_end 0 (p ++ s) ≡ some (length (p ++ s))
    → 0 < length s
    → header_end 0 p ≡ none
header_end_prefix p s e pos = elim (Option-cases (header_end 0 p)) [
  | inl none_yet ↦ none_yet
  | inr (n, found) ↦
      let l = header_end-le 0 p n found in
      let f = header_end-append 0 p s n found in absurd (ground (arith, length-append p s))
]

-- A prefix of `h ++ b` ends before `h` does, or has the whole of `h`.
pub cut :
    (x s h b : Text)
    → x ++ s ≡ h ++ b
    → ((s' : Text) × (x ++ s' ≡ h) × (0 < length s')) ⊎ ((y : Text) × (x ≡ h ++ y) × (y ++ s ≡ b))
cut [] s [] b e = inr ([], refl, e)
cut [] s (a ∷ h) b e = inl (a ∷ h, refl, omega arith)
cut (a ∷ x) s [] b e = inr (a ∷ x, refl, e)
cut (a ∷ x) s (c ∷ h) b e = elim (cut x s h b (ground arith)) [
  | inl (s', p, q) ↦ inl (s', ground arith, q)
  | inr (y, p, q) ↦ inr (y, ground arith, q)
]

module _ (parse : Text → Option SipMessage) (length_of : Text → Option ℕ) where
  -- `h` is a header block that parses to `m`, and `b` a body of the length that the decoder takes.
  pub record IsFrame (h b : Text) (m : SipMessage) : Type 0 where
    pub ends : header_end 0 h ≡ some (length h)
    pub no_keep_alive : 4 < length h
    pub parses : parse h ≡ some m
    pub no_body : message_body m ≡ []
    pub body_fits : length b ≡ body_length parse length_of m

  -- What becomes of a pending message with no body yet.
  pub decode_body_lem :
      (m : SipMessage) (src : Text)
      → message_body m ≡ []
      → let n : ℕ = body_length parse length_of m in
        decode_body parse length_of m src ≡ (
          if leb n (length src)
          then record {
            result = ok (some (with_body m (take n src)));
            decoder = new;
            src = drop n src;
          }
          else record {
            result = ok none;
            decoder = record { pending_message = some m };
            src = src;
          })
  unfolding decode_body
  decode_body_lem m src e =
      let n : ℕ = body_length parse length_of m in
      elim (Bool-cases (leb n (length src))) [
        | inl full ↦
            let exact : (length (take n src) == n) ≡ true = rw (length-take n src) (ground arith) in
            rw (full, e, message_body-with_body m (take n src), exact)
        | inr short ↦ let open' : (0 == n) ≡ false = ground arith in rw (short, e, open')
      ]

  module _ {h b : Text} {m : SipMessage} (f : IsFrame h b m) where
    abbrev pub waiting : SipMessageDecoder
    waiting = record { pending_message = some m }

    pub decode_early :
        (x s : Text)
        → x ++ s ≡ h
        → 0 < length s
        → decode parse length_of new x ≡ record { result = ok none; decoder = new; src = x }
    unfolding decode
    decode_early x s e pos = rw (header_end_prefix x s (rw e f.ends) pos)

    pub decode_headed :
        (y : Text) → decode parse length_of new (h ++ y) ≡ decode_body parse length_of m y
    unfolding decode
    decode_headed y =
        let far : (length h == 4) ≡ false = let q = f.no_keep_alive in ground arith in
        rw (
          header_end-append 0 h y (length h) f.ends,
          far,
          take-append h y,
          f.parses,
          drop-append h y,
        )

    pub decode_body_short :
        (y : Text)
        → length y < length b
        → decode_body parse length_of m y ≡ record { result = ok none; decoder = waiting; src = y }
    decode_body_short y l =
        let short : leb (body_length parse length_of m) (length y) ≡ false =
          rw (sym f.body_fits) (ground arith) in
        decode_body_lem m y f.no_body ∙ rw short

    pub decode_body_full :
        (rest : Text)
        → decode_body parse length_of m (b ++ rest)
          ≡ record { result = ok (some (with_body m b)); decoder = new; src = rest }
    decode_body_full rest =
        let full : leb (length b) (length (b ++ rest)) ≡ true =
          rw (length-append b rest) (ground arith) in
        decode_body_lem m (b ++ rest) f.no_body
        ∙ rw (sym f.body_fits, full, take-append b rest, drop-append b rest)
