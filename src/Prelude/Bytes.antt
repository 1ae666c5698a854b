-- ===== src/Prelude/Bytes.antt =====
-- A `String` as the list of its bytes.
use Prim.Native.Nat.{ℕ, ◌-◌}
use Prim.Native.Char.{code}
use Prim.Native.String.{String}
use mathlib.Core.Path.{◌≡◌, refl, ap₂}
use mathlib.Core.Bool.{Bool, true, false, ◌&&◌}
use mathlib.Core.Option.{Option, none, some}
use mathlib.Core.List.{List, [], ◌∷◌}
use native.Mathlib.Omega.{arith}
use simple_sip_rs.Prelude.Tests.{◌==◌, ltb, leb, if◌then◌else◌}

abbrev pub Text : Type 0
Text = List ℕ

-- The bytes of an ASCII literal.
abbrev pub codes : String → Text
codes String.[] = []
codes (String.◌∷◌ c s) = code c ∷ codes s

unfoldable pub text_eq : Text → Text → Bool
text_eq [] [] = true
text_eq [] (b ∷ bs) = false
text_eq (a ∷ as') [] = false
text_eq (a ∷ as') (b ∷ bs) = (a == b) && text_eq as' bs

pub text_eq_refl : (a : Text) → text_eq a a ≡ true
unfolding text_eq
text_eq_refl [] = refl
text_eq_refl (a ∷ as') = ground (arith, text_eq_refl as')

pub eq_of_text_eq : (a b : Text) → text_eq a b ≡ true → a ≡ b
unfolding text_eq
eq_of_text_eq [] [] h = refl
eq_of_text_eq [] (b ∷ bs) h = ground arith
eq_of_text_eq (a ∷ as') [] h = ground arith
eq_of_text_eq (a ∷ as') (b ∷ bs) h = ap₂ ◌∷◌ (ground arith) (eq_of_text_eq as' bs (ground arith))

-- What may follow a leading byte of UTF-8: how many bytes, and the range of the first of them.
record Lead : Type 0 where
  left : ℕ
  low : ℕ
  high : ℕ

lead : ℕ → Option Lead
lead a =
    if ltb a 0x80
    then some (record { left = 0; low = 0x80; high = 0xbf })
    else if ltb a 0xc2
    then none
    else if ltb a 0xe0
    then some (record { left = 1; low = 0x80; high = 0xbf })
    else if ltb a 0xf0
    then some (record {
      left = 2;
      low = if a == 0xe0 then 0xa0 else 0x80;
      high = if a == 0xed then 0x9f else 0xbf;
    })
    else if ltb a 0xf5
    then some (record {
      left = 3;
      low = if a == 0xf0 then 0x90 else 0x80;
      high = if a == 0xf4 then 0x8f else 0xbf;
    })
    else none

-- `String::from_utf8` succeeds on these bytes.
utf8_from : Option Lead → Text → Bool
utf8_from none _ = false
utf8_from (some l) [] = l.left == 0
utf8_from (some l) (a ∷ as') =
    utf8_from
      (if l.left == 0
        then lead a
        else if leb l.low a && leb a l.high
        then some (record { left = l.left - 1; low = 0x80; high = 0xbf })
        else none)
      as'

unfoldable pub is_utf8 : Text → Bool
unfolding utf8_from lead
is_utf8 = utf8_from (some (record { left = 0; low = 0x80; high = 0xbf }))

is_utf8_samples :
    (is_utf8 (0x68 ∷ 0xc3 ∷ 0xa9 ∷ 0xe2 ∷ 0x82 ∷ 0xac ∷ []) ≡ true)
    × (is_utf8 (0xc0 ∷ 0x80 ∷ []) ≡ false)
    × (is_utf8 (0xed ∷ 0xa0 ∷ 0x80 ∷ []) ≡ false)
unfolding is_utf8
is_utf8_samples = (refl, refl, refl)
