-- ===== src/Media/G711Codec/Buffer.antt =====
-- What src/media/pcmu.rs and src/media/pcma.rs make of their buffer in a tick.
use simple_sip_rs.Prelude.{
  ℕ, zero, suc, ◌<◌, ◌≡◌, refl, ap, inl, inr, false, List, [], ◌∷◌, map, length, take, drop, arith,
  ◌-◌, ltb, ltb→lt, take_all, drop_all, length-take, Bool-cases, if◌then◌else◌,
}
use mathlib.Core.List.{append-nil}
use simple_sip_rs.Media.Libraries.{MediaLib}
use simple_sip_rs.Media.G711Codec.{G711Codec, samples_count, padded, packed, get_next_packet}

take_more : {A : Type 0} (n : ℕ) (xs : List A) → length xs < n → take n xs ≡ xs
take_more zero xs h = absurd (omega arith)
take_more (suc n) [] h = refl
take_more (suc n) (x ∷ xs) h = ap (λ (t : List _). x ∷ t) (take_more n xs (omega arith))

drop_more : {A : Type 0} (n : ℕ) (xs : List A) → length xs < n → drop n xs ≡ []
drop_more zero xs h = absurd (omega arith)
drop_more (suc n) [] h = refl
drop_more (suc n) (x ∷ xs) h = drop_more n xs (omega arith)

minus_self : (n : ℕ) → n - n ≡ 0
minus_self n = omega arith

not_short :
    (count : ℕ) (b : List ℕ)
    → ltb (length b) count ≡ false
    → ltb (length (take count b)) count ≡ false
not_short count b h = rw (length-take count b) (ground arith)

-- As many samples as there are are taken and not one is added, also when there are too few.
frame_lem :
    (count : ℕ) (b : List ℕ)
    → let n = if ltb (length b) count then length b else count in
      (padded count n (take n b) ≡ take count b) × (drop n b ≡ drop count b)
frame_lem count b = elim (Bool-cases (ltb (length b) count)) [
  | inl h ↦
      rw
        (
          h,
          take_all b,
          h,
          minus_self (length b),
          drop_all b,
          take_more count b (ltb→lt (length b) count h),
          drop_more count b (ltb→lt (length b) count h),
        )
        (append-nil b, refl)
  | inr h ↦ rw (h, not_short count b h) (refl, refl)
]

module _ (l : MediaLib) (encode decode : ℕ → ℕ) where
  -- PCMU and PCMA: a tick packs as many samples of the buffer as a packet takes, or all of them
  -- where there are fewer; no zero is added to them, and they leave the buffer.
  pub packet_unpadded :
      (c : G711Codec l)
      → let n = samples_count l c in
        let payload = map encode (l.fon.from_stereo_48k c.sample_rate (take n c.buffer_out)) in
        get_next_packet l encode decode c
        ≡ packed l
            (record c { buffer_out = drop n c.buffer_out })
            (l.rtp.packetize c.packetizer payload c.sample_rate)
  unfolding get_next_packet
  packet_unpadded c =
      let (samples, rest) = frame_lem (samples_count l c) c.buffer_out in rw (samples, rest) refl
