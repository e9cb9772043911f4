-- ===== src/Base/Int.antt =====
-- Signed integers, the conversion to a w-bit integer, and `strconv.ParseInt` in base 10.
use Prim.Native.Nat.{ℕ, zero, suc, ◌+◌, ◌-◌, ◌*◌, ◌%◌, ◌^◌, ◌<◌}
use mathlib.Core.Path.{◌≡◌}
use mathlib.Core.Bool.{◌&&◌}
use mathlib.Core.Option.{Option, none, some}
use mathlib.Core.List.{[], ◌∷◌}
use native.Mathlib.Omega.{arith}
use go_utilities.Base.Tests.{ltb, leb, if◌then◌else◌, ◌==◌, nat_eq}
use go_utilities.Base.Text.{Text}

-- `negsuc n` is -(n + 1).
pub data ℤ : Type 0 where
  pos negsuc : ℕ → ℤ

-- The value of a residue below 2 ^ 32 as an `int32`.
abbrev pub signed32 : ℕ → ℤ
signed32 u = if ltb u (2 ^ 31) then pos u else negsuc (2 ^ 32 - 1 - u)

-- `int32(x)`, which keeps the low 32 bits
unfoldable pub to_int32 : ℤ → ℤ
to_int32 (pos n) = signed32 (n % 2 ^ 32)
to_int32 (negsuc n) = signed32 (2 ^ 32 - 1 - n % 2 ^ 32)

-- The range of an `int32`.
abbrev pub FitsInt32 : ℤ → Type 0
FitsInt32 (pos n) = n < 2 ^ 31
FitsInt32 (negsuc n) = n < 2 ^ 31

pub to_int32_fits : (z : ℤ) → FitsInt32 (to_int32 z)
unfolding to_int32
to_int32_fits (pos n) = ground arith
to_int32_fits (negsuc n) = ground arith

pub to_int32_of_fits : (z : ℤ) → FitsInt32 z → to_int32 z ≡ z
unfolding to_int32
to_int32_of_fits (pos n) h = ground arith
to_int32_of_fits (negsuc n) h = ground arith

-- The digits of a number, most significant first, on top of the accumulator.
unfoldable pub parse_digits : ℕ → Text → Option ℕ
parse_digits acc [] = some acc
parse_digits acc (c ∷ s) =
    let rest = parse_digits (acc * 10 + (c - b'0')) s in
    if leb b'0' c && leb c b'9' then rest else none

unfoldable pub parse_unsigned : Text → Option ℕ
unfolding parse_digits
parse_unsigned [] = none
parse_unsigned (c ∷ s) = parse_digits 0 (c ∷ s)

-- A magnitude below `cutoff` after no sign or `+`, or up to `cutoff` after `-`.
abbrev pub positive : ℕ → Option ℕ → Option ℤ
positive cutoff none = none
positive cutoff (some n) = if ltb n cutoff then some (pos n) else none

abbrev pub negate : ℕ → ℤ
negate zero = pos 0
negate (suc n) = negsuc n

abbrev pub negative : ℕ → Option ℕ → Option ℤ
negative cutoff none = none
negative cutoff (some n) = if leb n cutoff then some (negate n) else none

-- `strconv.ParseInt(s, 10, w)`, with `cutoff` for 2 ^ (w - 1)
unfoldable pub parse_int : ℕ → Text → Option ℤ
unfolding parse_unsigned
parse_int cutoff [] = none
parse_int cutoff (c ∷ s) =
    if c == b'-'
    then negative cutoff (parse_unsigned s)
    else if c == b'+'
    then positive cutoff (parse_unsigned s)
    else positive cutoff (parse_unsigned (c ∷ s))
