-- ===== src/Prelude/Word.antt =====
-- Machine words as bit patterns: `u8`, `u16`, `u32` wrap; an `i16` is a pattern below 2 ^ 16.
use Prim.Native.Nat.{ℕ, ◌-◌, ◌/◌, ◌%◌, ◌^◌}
use mathlib.Core.Bool.{Bool}
use simple_sip_rs.Prelude.Tests.{ltb, if◌then◌else◌}

abbrev pub u8 : ℕ → ℕ
u8 n = n % 2 ^ 8

abbrev pub u16 : ℕ → ℕ
u16 n = n % 2 ^ 16

abbrev pub u32 : ℕ → ℕ
u32 n = n % 2 ^ 32

-- Is the pattern of an `i16` below zero?
abbrev pub is_neg : ℕ → Bool
is_neg x = ltb 0x7fff x

-- `!x` on an `i16`.
abbrev pub complement : ℕ → ℕ
complement x = 0xffff - x

-- `x >> k` on an `i16` with the sign bit clear, and on one with it set.
abbrev pub shr : ℕ → ℕ → ℕ
shr x k = x / 2 ^ k

abbrev pub sar : ℕ → ℕ → ℕ
sar x k = if is_neg x then complement (complement x / 2 ^ k) else x / 2 ^ k

-- `-x` on an `i16`.
abbrev pub negate : ℕ → ℕ
negate x = u16 (0x10000 - x)
