-- ===== src/Media/Pcmu/G711.antt =====
-- src/media/pcmu.rs: `encode` and `decode` of one mu-law sample. An `i16` is a bit pattern below
-- 2 ^ 16; once the sign is taken off, the code's numbers are not negative.
use simple_sip_rs.Prelude.{ℕ, zero, suc, ◌+◌, ◌-◌, ◌*◌, ◌/◌, ◌^◌, true, false}
use simple_sip_rs.Prelude.{◌==◌, ltb, if◌then◌else◌}
use simple_sip_rs.Prelude.Word.{u8, is_neg, complement, negate, shr, sar}
use simple_sip_rs.Prelude.Bits.{bit_and, bit_or}

-- `while i != 0 { segno += 1; i >>= 1; }`, from `i` and `segno`, with fuel.
unfoldable pub segment : ℕ → ℕ → ℕ → ℕ
segment zero i segno = segno
segment (suc fuel) i segno = elim (i == 0) [
  | true ↦ segno
  | false ↦ segment fuel (shr i 1) (segno + 1)
]

-- What `encode` makes of `x >> 2` (or `!x >> 2`), before the sign bit is put in. A value of
-- `absno >> 6` is below 128, so that eight rounds of the loop are enough.
unfoldable pub encode_magnitude : ℕ → ℕ
unfolding segment
encode_magnitude shifted =
    let sum : ℕ = shifted + 33 in
    let absno : ℕ = if ltb 0x1fff sum then 0x1fff else sum in
    let segno : ℕ = segment 8 (shr absno 6) 1 in
    let high_nibble : ℕ = 8 - segno in
    let low_nibble : ℕ = 0xf - bit_and (absno / 2 ^ segno) 0xf in
    bit_or (high_nibble * 2 ^ 4) low_nibble

unfoldable pub encode : ℕ → ℕ
encode x =
    if is_neg x
    then u8 (encode_magnitude (shr (complement x) 2))
    else u8 (bit_or (encode_magnitude (shr x 2)) 0x80)

-- The number that `decode` multiplies by the sign.
unfoldable pub decode_magnitude : ℕ → ℕ
decode_magnitude y =
    let exponent : ℕ = bit_and (sar (complement y) 4) 7 in
    let mantissa : ℕ = bit_and (complement y) 0xf in
    let step : ℕ = 4 * 2 ^ (exponent + 1) in
    0x80 * 2 ^ exponent + step * mantissa + shr step 1 - 4 * 33

unfoldable pub decode : ℕ → ℕ
decode y = if ltb y 0x80 then negate (decode_magnitude y) else decode_magnitude y
