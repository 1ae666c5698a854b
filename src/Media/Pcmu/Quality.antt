-- ===== src/Media/Pcmu/Quality.antt =====
-- What a sample loses by mu-law: `encode` and `decode` of src/media/pcmu.rs one after the other.
-- The facts about single values are checked over the whole range of what the code shifts down to.
use simple_sip_rs.Prelude.{
  ℕ, ◌+◌, ◌*◌, ◌/◌, ◌^◌, ◌≤◌, ◌<◌, ◌≡◌, refl, Bool, true, false, ◌&&◌, arith,
}
use simple_sip_rs.Prelude.{zero, suc, inl, inr, Bool-cases}
use native.Mathlib.Nat.{pow-suc}
use simple_sip_rs.Prelude.{◌==◌, ==_iff, ltb, leb, if◌then◌else◌}
use simple_sip_rs.Prelude.Word.{u8, is_neg, complement, negate}
use simple_sip_rs.Prelude.Bits.{bit_or, passes, passes-at}
use simple_sip_rs.Media.Pcmu.G711.{segment, encode, encode_magnitude, decode, decode_magnitude}

-- The loop that counts the segment has ended when the fuel of `encode_magnitude` is spent: more
-- fuel changes nothing.
pub segment_fuel :
    (fuel i segno : ℕ) → i < 2 ^ fuel → segment (suc fuel) i segno ≡ segment fuel i segno
unfolding segment
segment_fuel zero i segno h = ground arith
segment_fuel (suc fuel) i segno h =
    ground (arith, pow-suc 2 fuel, segment_fuel fuel (i / 2) (segno + 1))

restored : ℕ → Bool
restored y = encode (decode y) == (if y == 0x7f then 0xff else y)

restored_table : passes restored 256 ≡ true
unfolding restored passes encode encode_magnitude decode decode_magnitude
restored_table = refl

-- Mu-law: encoding the sample that a byte stands for gives the byte back, but for 0x7f, which
-- gives 0xff.
pub mu_law_restored : (y : ℕ) → y < 256 → encode (decode y) ≡ (if y == 0x7f then 0xff else y)
unfolding restored
mu_law_restored y h = (==_iff _ _).0 (passes-at restored 256 y h restored_table)

-- What is coded for a positive and for a negative sample, from their common magnitude.
positive_code : ℕ → ℕ
positive_code q = u8 (bit_or (encode_magnitude q) 0x80)

negative_code : ℕ → ℕ
negative_code q = u8 (encode_magnitude q)

close : ℕ → Bool
close q =
    let v : ℕ = decode_magnitude (positive_code q) in
    leb (32 * v) (33 * (4 * q) + 132)
    && leb (31 * (4 * q + 3)) (32 * v + 132)
    && leb 0x80 (positive_code q)

mirrored : ℕ → Bool
mirrored q =
    decode_magnitude (negative_code q) == decode_magnitude (positive_code q)
    && ltb (negative_code q) 0x80

close_table : passes close 8192 ≡ true
unfolding close positive_code passes encode_magnitude decode_magnitude
close_table = refl

mirrored_table : passes mirrored 8192 ≡ true
unfolding mirrored positive_code negative_code passes encode_magnitude decode_magnitude
mirrored_table = refl

close_lem :
    (q : ℕ)
    → q < 8192
    → (32 * decode_magnitude (positive_code q) ≤ 33 * (4 * q) + 132)
      × (31 * (4 * q + 3) ≤ 32 * decode_magnitude (positive_code q) + 132)
      × (0x80 ≤ positive_code q)
close_lem q h =
    let e : close q ≡ true = passes-at close 8192 q h close_table in unfold close in ground arith

mirrored_lem :
    (q : ℕ)
    → q < 8192
    → (decode_magnitude (negative_code q) ≡ decode_magnitude (positive_code q))
      × (negative_code q < 0x80)
mirrored_lem q h =
    let e : mirrored q ≡ true = passes-at mirrored 8192 q h mirrored_table in
    unfold mirrored in ground arith

encode_positive : (x : ℕ) → x < 0x8000 → encode x ≡ positive_code (x / 4)
unfolding encode positive_code
encode_positive x h = let e : is_neg x ≡ false = ground arith in rw e

encode_negative : (x : ℕ) → 0x8000 ≤ x → encode x ≡ negative_code (complement x / 4)
unfolding encode negative_code
encode_negative x h = let e : is_neg x ≡ true = ground arith in rw e

decode_positive : (q : ℕ) → q < 8192 → decode (positive_code q) ≡ decode_magnitude (positive_code q)
unfolding decode
decode_positive q h =
    let c = close_lem q h in let e : ltb (positive_code q) 0x80 ≡ false = ground arith in rw e

decode_negative : (q : ℕ) → q < 8192 → decode (negative_code q) ≡ negate (decode (positive_code q))
decode_negative q h =
    let m = mirrored_lem q h in
    let e : ltb (negative_code q) 0x80 ≡ true = ground arith in
    rw (decode_positive q h, ← m.0) (unfold decode in rw e)

-- Mu-law: a sample x that is not negative comes back with an error of at most (x + 132) / 32.
mu_law_error :
    (x : ℕ)
    → x < 0x8000
    → (32 * decode (encode x) ≤ 33 * x + 132) × (31 * x ≤ 32 * decode (encode x) + 132)
mu_law_error x h =
    rw (encode_positive x h, decode_positive (x / 4) (omega arith))
      (omega (arith, close_lem (x / 4) (omega arith)))

-- Mu-law: a negative sample comes back as the opposite of what its complement comes back as.
mu_law_mirror :
    (x : ℕ) → 0x8000 ≤ x → x < 0x10000 → decode (encode x) ≡ negate (decode (encode (complement x)))
mu_law_mirror x h k =
    rw (encode_negative x h, encode_positive (complement x) (omega arith))
      (decode_negative (complement x / 4) (omega arith))

-- Mu-law: let y be a sample, or its complement if it is negative. The sample comes back as what y
-- comes back as, or as the opposite of it if the sample is negative; and y comes back with an
-- error of at most (y + 132) / 32.
pub mu_law_quality :
    (x : ℕ)
    → x < 0x10000
    → let y = if is_neg x then complement x else x in
      (decode (encode x) ≡ (if is_neg x then negate (decode (encode y)) else decode (encode y)))
      × (32 * decode (encode y) ≤ 33 * y + 132)
      × (31 * y ≤ 32 * decode (encode y) + 132)
mu_law_quality x h = elim (Bool-cases (is_neg x)) [
  | inl e ↦
      let below : 0x8000 ≤ x = ground arith in
      let (over, under) = mu_law_error (complement x) (omega arith) in
      rw e (mu_law_mirror x below h, over, under)
  | inr e ↦
      let above : x < 0x8000 = ground arith in
      let (over, under) = mu_law_error x above in rw e (refl, over, under)
]
