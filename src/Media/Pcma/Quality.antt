-- ===== src/Media/Pcma/Quality.antt =====
-- What a sample loses by A-law: `encode` and `decode` of src/media/pcma.rs one after the other.
-- The facts about single values are checked over the whole range of what the code shifts down to.
use native.Mathlib.Nat.{pow-suc}
use Prim.Native.Nat.{max}
use simple_sip_rs.Prelude.{
  inl, inr, Bool-cases, ℕ, zero, suc, ◌+◌, ◌-◌, ◌*◌, ◌/◌, ◌^◌, ◌≤◌, ◌<◌, ◌≡◌, refl, Bool, true,
  false, ◌&&◌, arith,
}
use simple_sip_rs.Prelude.{◌==◌, ==_iff, ltb, leb, if◌then◌else◌}
use simple_sip_rs.Prelude.Word.{u8, is_neg, complement, negate}
use simple_sip_rs.Prelude.Bits.{bit_and, bit_or, bit_xor, passes, passes-at}
use simple_sip_rs.Media.Pcma.G711.{halve, encode, encode_magnitude, decode, decode_magnitude}

-- The loop has ended when the fuel of `encode_magnitude` is spent: more fuel changes nothing.
pub halve_fuel :
    (fuel ix iexp : ℕ) → ix < 32 * 2 ^ fuel → halve (suc fuel) ix iexp ≡ halve fuel ix iexp
unfolding halve
halve_fuel zero ix iexp h = ground arith
halve_fuel (suc fuel) ix iexp h =
    ground (arith, pow-suc 2 fuel, halve_fuel fuel (ix / 2) (iexp + 1))

restored : ℕ → Bool
restored y = encode (decode y) == y

restored_table : passes restored 256 ≡ true
unfolding restored passes encode encode_magnitude decode decode_magnitude
restored_table = refl

-- A-law: encoding the sample that a byte stands for gives the byte back.
pub a_law_restored : (y : ℕ) → y < 256 → encode (decode y) ≡ y
unfolding restored
a_law_restored y h = (==_iff _ _).0 (passes-at restored 256 y h restored_table)

-- What is coded for a positive and for a negative sample, from their common magnitude.
positive_code : ℕ → ℕ
positive_code q = u8 (bit_and (bit_xor (bit_or (encode_magnitude q) 0x80) 0x55) 0xff)

negative_code : ℕ → ℕ
negative_code q = u8 (bit_and (bit_xor (encode_magnitude q) 0x55) 0xff)

-- A step is 16 wide below 512; from there on the error grows with the sample.
close : ℕ → Bool
close q =
    let v : ℕ = decode_magnitude (positive_code q) in
    leb (32 * v) (33 * (16 * q) + (if ltb q 16 then 256 - 16 * q else 0))
    && leb (32 * (16 * q + 15)) (32 * v + (if ltb q 16 then 256 else 16 * q + 15))
    && ltb 127 (positive_code q)

mirrored : ℕ → Bool
mirrored q =
    decode_magnitude (negative_code q) == decode_magnitude (positive_code q)
    && leb (negative_code q) 127

close_table : passes close 2048 ≡ true
unfolding close positive_code passes encode_magnitude decode_magnitude
close_table = refl

mirrored_table : passes mirrored 2048 ≡ true
unfolding mirrored positive_code negative_code passes encode_magnitude decode_magnitude
mirrored_table = refl

close_lem :
    (q : ℕ)
    → q < 2048
    → (32 * decode_magnitude (positive_code q)
        ≤ 33 * (16 * q) + (if ltb q 16 then 256 - 16 * q else 0))
      × (32 * (16 * q + 15)
          ≤ 32 * decode_magnitude (positive_code q) + (if ltb q 16 then 256 else 16 * q + 15))
      × (127 < positive_code q)
close_lem q h =
    let e : close q ≡ true = passes-at close 2048 q h close_table in unfold close in ground arith

mirrored_lem :
    (q : ℕ)
    → q < 2048
    → (decode_magnitude (negative_code q) ≡ decode_magnitude (positive_code q))
      × (negative_code q ≤ 127)
mirrored_lem q h =
    let e : mirrored q ≡ true = passes-at mirrored 2048 q h mirrored_table in
    unfold mirrored in ground arith

encode_positive : (x : ℕ) → x < 0x8000 → encode x ≡ positive_code (x / 16)
unfolding encode positive_code
encode_positive x h = let e : is_neg x ≡ false = ground arith in rw e

encode_negative : (x : ℕ) → 0x8000 ≤ x → encode x ≡ negative_code (complement x / 16)
unfolding encode negative_code
encode_negative x h = let e : is_neg x ≡ true = ground arith in rw e

decode_positive : (q : ℕ) → q < 2048 → decode (positive_code q) ≡ decode_magnitude (positive_code q)
unfolding decode
decode_positive q h =
    let c = close_lem q h in let e : ltb 127 (positive_code q) ≡ true = ground arith in rw e

decode_negative : (q : ℕ) → q < 2048 → decode (negative_code q) ≡ negate (decode (positive_code q))
decode_negative q h =
    let m = mirrored_lem q h in
    let e : ltb 127 (negative_code q) ≡ false = ground arith in
    rw (decode_positive q h, ← m.0) (unfold decode in rw e)

-- A-law: a sample x that is not negative comes back with an error of at most max(x, 256) / 32.
a_law_error :
    (x : ℕ)
    → x < 0x8000
    → (32 * decode (encode x) ≤ 32 * x + max x 256) × (32 * x ≤ 32 * decode (encode x) + max x 256)
a_law_error x h =
    rw (encode_positive x h, decode_positive (x / 16) (omega arith))
      (let c = close_lem (x / 16) (omega arith) in ground arith)

-- A-law: a negative sample comes back as the opposite of what its complement comes back as.
a_law_mirror :
    (x : ℕ) → 0x8000 ≤ x → x < 0x10000 → decode (encode x) ≡ negate (decode (encode (complement x)))
a_law_mirror x h k =
    rw (encode_negative x h, encode_positive (complement x) (omega arith))
      (decode_negative (complement x / 16) (omega arith))

-- A-law: let y be a sample, or its complement if it is negative. The sample comes back as what y
-- comes back as, or as the opposite of it if the sample is negative; and y comes back with an
-- error of at most max(y, 256) / 32.
pub a_law_quality :
    (x : ℕ)
    → x < 0x10000
    → let y = if is_neg x then complement x else x in
      (decode (encode x) ≡ (if is_neg x then negate (decode (encode y)) else decode (encode y)))
      × (32 * decode (encode y) ≤ 32 * y + max y 256)
      × (32 * y ≤ 32 * decode (encode y) + max y 256)
a_law_quality x h = elim (Bool-cases (is_neg x)) [
  | inl e ↦
      let below : 0x8000 ≤ x = ground arith in
      let (over, under) = a_law_error (complement x) (omega arith) in
      rw e (a_law_mirror x below h, over, under)
  | inr e ↦
      let above : x < 0x8000 = ground arith in
      let (over, under) = a_law_error x above in rw e (refl, over, under)
]
