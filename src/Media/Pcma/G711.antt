-- ===== src/Media/Pcma/G711.antt =====
-- src/media/pcma.rs: `encode` and `decode` of one A-law sample. An `i16` is a bit pattern below
-- 2 ^ 16; once the sign is taken off, the code's numbers are not negative.
use simple_sip_rs.Prelude.{ℕ, zero, suc, ◌+◌, ◌-◌, ◌*◌, ◌^◌, true, false}
use simple_sip_rs.Prelude.{ltb, if◌then◌else◌}
use simple_sip_rs.Prelude.Word.{u8, is_neg, complement, negate, shr}
use simple_sip_rs.Prelude.Bits.{bit_and, bit_or, bit_xor}

-- `while ix > 16 + 15 { ix >>= 1; iexp += 1; }`, with fuel, from `ix` and `iexp`.
unfoldable pub halve : ℕ → ℕ → ℕ → ℕ × ℕ
halve zero ix iexp = (ix, iexp)
halve (suc fuel) ix iexp = elim (ltb (16 + 15) ix) [
  | true ↦ halve fuel (shr ix 1) (iexp + 1)
  | false ↦ (ix, iexp)
]

-- What `encode` makes of `x >> 4` (or `!x >> 4`), before the sign bit is put in. That value is
-- below 2048, so that six rounds of the loop are enough.
unfoldable pub encode_magnitude : ℕ → ℕ
unfolding halve
encode_magnitude shifted =
    let (ix, iexp) = halve 6 shifted 1 in
    let coded : ℕ = ix - 16 + iexp * 2 ^ 4 in if ltb 15 shifted then coded else shifted

unfoldable pub encode : ℕ → ℕ
encode x =
    let ix : ℕ = encode_magnitude (if is_neg x then shr (complement x) 4 else shr x 4) in
    u8 (bit_and (bit_xor (if is_neg x then ix else bit_or ix 0x80) 0x55) 0xff)

-- The number that `decode` gives a sign to.
unfoldable pub decode_magnitude : ℕ → ℕ
decode_magnitude y =
    let ix : ℕ = bit_and (bit_xor y 0x55) 0x7f in
    let iexp : ℕ = shr ix 4 in
    let low : ℕ = bit_and ix 0xf in
    let mant : ℕ = if ltb 0 iexp then low + 16 else low in
    let centred : ℕ = mant * 2 ^ 4 + 8 in if ltb 1 iexp then centred * 2 ^ (iexp - 1) else centred

unfoldable pub decode : ℕ → ℕ
decode y = if ltb 127 y then decode_magnitude y else negate (decode_magnitude y)
