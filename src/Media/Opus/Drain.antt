-- ===== src/Media/Opus/Drain.antt =====
-- What becomes of the samples that src/media/opus.rs is given to send.
use simple_sip_rs.Prelude.{
  ℕ, zero, suc, ◌-◌, ◌*◌, ◌≤◌, ◌<◌, ◌≡◌, refl, sym, ap, ◌∙◌, List, [], ◌∷◌, ◌++◌, Option, none,
  some, ok, length, take, drop, replicate, length-take, length-drop, take-append-drop, take_all,
  drop_all, nil_of_length, List-cases, ltb→lt, lt→ltb, ap₂, arith, ltb, Bool-cases, inl, inr,
  if◌then◌else◌,
}
use mathlib.Core.List.{append_assoc, append-nil}
use simple_sip_rs.Media.Libraries.{MediaLib, IsMediaLib}
use simple_sip_rs.Media.Opus.{
  OpusCodec, samples_count, resized, encoded, unless_empty, get_next_packet,
}

module _ (l : MediaLib) where
  -- The codec after a number of ticks, whatever comes of each.
  unfoldable pub ticks : ℕ → OpusCodec l → OpusCodec l
  ticks zero c = c
  ticks (suc n) c = ticks n (get_next_packet l c).0

  -- What the encoder has been given so far.
  abbrev pub heard : OpusCodec l → List ℕ
  heard c = l.opus.heard c.encoder

  encoded_fields :
      (c : OpusCodec l) (e : l.opus.Encoder) (o : Option (List ℕ))
      → let c' = (encoded l c (e, o)).0 in
        (c'.buffer_out ≡ c.buffer_out) × (c'.encoder ≡ e) × (samples_count l c' ≡ samples_count l c)
  encoded_fields c e none = (refl, refl, refl)
  encoded_fields c e (some p) = (refl, refl, refl)

  pub empty_tick : (c : OpusCodec l) (b : List ℕ) → b ≡ [] → (unless_empty l c b).0 ≡ c
  empty_tick c b e = rw e

  -- A tick on an empty buffer does nothing.
  idle : (k : ℕ) (c : OpusCodec l) → c.buffer_out ≡ [] → ticks k c ≡ c
  unfolding ticks get_next_packet
  idle zero c e = refl
  idle (suc k) c e = ap (ticks k) (empty_tick c c.buffer_out e) ∙ idle k c e

  -- What a tick does to a buffer that is not empty: it takes so many samples.
  abbrev pub taken : ℕ → OpusCodec l → ℕ
  taken n c = if ltb (length c.buffer_out) n then length c.buffer_out else n

  pub tick_fields :
      (n : ℕ) (c : OpusCodec l) (x : ℕ) (xs : List ℕ)
      → IsMediaLib l
      → samples_count l c ≡ n
      → c.buffer_out ≡ x ∷ xs
      → let c' = (get_next_packet l c).0 in
        (c'.buffer_out ≡ drop (taken n c) c.buffer_out)
        × (heard c' ≡ heard c ++ resized l n (take (taken n c) c.buffer_out))
        × (samples_count l c' ≡ n)
  unfolding get_next_packet
  tick_fields n c x xs law s e =
      let samples = resized l n (take (taken n c) c.buffer_out) in
      let p = l.opus.encode_vec_float c.encoder samples (length samples) in
      let f = encoded_fields (record c { buffer_out = drop (taken n c) c.buffer_out }) p.0 p.1 in
      let u : (get_next_packet l c).0
          ≡ (encoded l (record c { buffer_out = drop (taken n c) c.buffer_out }) p).0 =
        ap (λ (b : List ℕ). (unless_empty l c b).0) e
        ∙ ap
            (λ (m : ℕ).
              let y = resized l m (take (taken m c) c.buffer_out) in
              (encoded l (record c { buffer_out = drop (taken m c) c.buffer_out })
                (l.opus.encode_vec_float c.encoder y (length y))).0)
            s in
      (
        ap (λ (d : OpusCodec l). d.buffer_out) u ∙ f.0,
        ap heard u ∙ ap l.opus.heard f.1 ∙ law.heard_encode c.encoder samples (length samples),
        ap (samples_count l) u ∙ f.2 ∙ s,
      )

  -- After some ticks the buffer is empty, and the encoder has got all of it and then some silence.
  abbrev Sent : ℕ → OpusCodec l → OpusCodec l → Type 0
  Sent n c d =
      (pad : ℕ) × (pad < n)
      × (d.buffer_out ≡ [])
      × (heard d ≡ heard c ++ (c.buffer_out ++ replicate pad 0))

  idle-Sent : (n : ℕ) (c d : OpusCodec l) → 0 < n → c.buffer_out ≡ [] → d ≡ c → Sent n c d
  idle-Sent n c d p e h = (
    0,
    p,
    ap (λ (x : OpusCodec l). x.buffer_out) h ∙ e,
    ap heard h ∙ sym (ap (λ (b : List ℕ). heard c ++ (b ++ [])) e ∙ append-nil (heard c)),
  )

  short_tick :
      (n k : ℕ) (c : OpusCodec l) (x : ℕ) (xs : List ℕ)
      → IsMediaLib l
      → samples_count l c ≡ n
      → c.buffer_out ≡ x ∷ xs
      → length c.buffer_out < n
      → Sent n c (ticks (suc k) c)
  unfolding ticks
  short_tick n k c x xs law s e lt =
      let b = c.buffer_out in
      let c' = (get_next_packet l c).0 in
      let f = tick_fields n c x xs law s e in
      let t : taken n c ≡ length b = rw (lt→ltb _ _ lt) in
      let gone : drop (length b) b ≡ [] = drop_all b in
      let emptied : c'.buffer_out ≡ [] = f.0 ∙ ap (λ (m : ℕ). drop m b) t ∙ gone in
      let whole : take (taken n c) b ≡ b = ap (λ (m : ℕ). take m b) t ∙ take_all b in
      let sent : resized l n (take (taken n c) b) ≡ b ++ replicate (n - length b) 0 =
        ap (resized l n) whole ∙ (rw (lt→ltb _ _ lt)) in
      let same : ticks k c' ≡ c' = idle k c' emptied in
      (
        n - length b,
        omega (arith, ap length e),
        ap (λ (d : OpusCodec l). d.buffer_out) same ∙ emptied,
        ap heard same ∙ f.1 ∙ ap (λ (y : List ℕ). heard c ++ y) sent,
      )

  full_tick :
      (n k : ℕ) (c : OpusCodec l) (x : ℕ) (xs : List ℕ)
      → IsMediaLib l
      → samples_count l c ≡ n
      → c.buffer_out ≡ x ∷ xs
      → n ≤ length c.buffer_out
      → Sent n (get_next_packet l c).0 (ticks k (get_next_packet l c).0)
      → Sent n c (ticks (suc k) c)
  unfolding ticks
  full_tick n k c x xs law s e le (pad, small, emptied, rest) =
      let b = c.buffer_out in
      let f = tick_fields n c x xs law s e in
      let t : taken n c ≡ n = ground (arith, le) in
      let frame : resized l n (take (taken n c) b) ≡ take n b =
        ap (λ (m : ℕ). resized l n (take m b)) t ∙ ground (arith, length-take n b) in
      let left : (get_next_packet l c).0.buffer_out ≡ drop n b = f.0 ∙ ap (λ (m : ℕ). drop m b) t in
      (
        pad,
        small,
        emptied,
        rest
            ∙ ap₂ (λ (h y : List ℕ). h ++ (y ++ replicate pad 0))
                (f.1 ∙ ap (λ (y : List ℕ). heard c ++ y) frame) left
            ∙ append_assoc (heard c) (take n b) (drop n b ++ replicate pad 0)
            ∙ ap (λ (y : List ℕ). heard c ++ y)
                (sym (append_assoc (take n b) (drop n b) (replicate pad 0))
                  ∙ ap (λ (y : List ℕ). y ++ replicate pad 0) (take-append-drop n b)),
      )

  drained :
      (n k : ℕ) (c : OpusCodec l)
      → IsMediaLib l
      → samples_count l c ≡ n
      → 0 < n
      → length c.buffer_out ≤ k * n
      → Sent n c (ticks k c)
  unfolding ticks
  drained n zero c law s p h = idle-Sent n c c p (nil_of_length c.buffer_out (omega arith)) refl
  drained n (suc k) c law s p h = elim (List-cases c.buffer_out) [
    | inl e ↦ idle-Sent n c (ticks (suc k) c) p e (idle (suc k) c e)
    | inr (x, xs, e) ↦ elim (Bool-cases (ltb (length c.buffer_out) n)) [
      | inl short ↦ short_tick n k c x xs law s e (ltb→lt _ _ short)
      | inr full ↦
          let le : n ≤ length c.buffer_out = ground arith in
          let f = tick_fields n c x xs law s e in
          let t : taken n c ≡ n = ground (arith, le) in
          let left : (get_next_packet l c).0.buffer_out ≡ drop n c.buffer_out =
            f.0 ∙ ap (λ (m : ℕ). drop m c.buffer_out) t in
          full_tick n k c x xs law s e le (
            drained n k (get_next_packet l c).0 law f.2 p
              (grind (arith, ap length left, length-drop n c.buffer_out)))
    ]
  ]

  -- Opus: where a packet takes at least one sample and k packets take all that is buffered, k
  -- ticks empty the buffer. In them the encoder is given what was in the buffer, in order, and
  -- after it fewer zeros than a packet takes; the next tick has no packet. It assumes that an
  -- encoder takes all that it is given.
  pub ticks-drain :
      (k : ℕ) (c : OpusCodec l)
      → IsMediaLib l
      → 0 < samples_count l c
      → length c.buffer_out ≤ k * samples_count l c
      → (pad : ℕ) × (pad < samples_count l c)
        × ((ticks k c).buffer_out ≡ [])
        × (heard (ticks k c) ≡ heard c ++ (c.buffer_out ++ replicate pad 0))
        × ((get_next_packet l (ticks k c)).1 ≡ ok [])
  unfolding get_next_packet
  ticks-drain k c law p h =
      let (pad, small, emptied, sent) = drained (samples_count l c) k c law refl p h in
      (pad, small, emptied, sent, ap (λ (b : List ℕ). (unless_empty l (ticks k c) b).1) emptied)
