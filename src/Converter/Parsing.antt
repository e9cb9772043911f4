-- ===== src/Converter/Parsing.antt =====
-- Parsed integers are in range, so the conversion to `int32` after `strconv.ParseInt` keeps them.
use go_utilities.Base.{
  ℕ, zero, suc, ◌^◌, ◌<◌, ◌≡◌, refl, ap, true, false, [], ◌∷◌, Option, none, some, arith, ◌==◌,
  nat_eq, Bool-cases, inl, inr,
}
use go_utilities.Base.Int.{
  ℤ, pos, negsuc, to_int32_of_fits, FitsInt32, parse_int, parse_unsigned, positive, negative,
}
use go_utilities.Base.Text.{Text, text_eq}
use go_utilities.Converter.{ok, nullable, present, or_invalid, narrow, str_to_null_int32}

-- The range of a signed integer of which the cutoff is the first value too large.
abbrev pub InRange : ℕ → ℤ → Type 0
InRange cutoff (pos n) = n < cutoff
InRange cutoff (negsuc n) = n < cutoff

positive-InRange :
    (cutoff : ℕ) (o : Option ℕ) (z : ℤ) → positive cutoff o ≡ some z → InRange cutoff z
positive-InRange cutoff none z h = cc
positive-InRange cutoff (some n) (pos m) h = ground arith
positive-InRange cutoff (some n) (negsuc m) h = ground arith

negative-InRange :
    (cutoff : ℕ) (o : Option ℕ) (z : ℤ) → 0 < cutoff → negative cutoff o ≡ some z → InRange cutoff z
negative-InRange cutoff none z c h = cc
negative-InRange cutoff (some zero) (pos m) c h = ground arith
negative-InRange cutoff (some zero) (negsuc m) c h = ground arith
negative-InRange cutoff (some (suc n)) (pos m) c h = ground arith
negative-InRange cutoff (some (suc n)) (negsuc m) c h = ground arith

pub parse_int-InRange :
    (cutoff : ℕ) (s : Text) (z : ℤ) → 0 < cutoff → parse_int cutoff s ≡ some z → InRange cutoff z
unfolding parse_int
parse_int-InRange cutoff [] z c h = cc
parse_int-InRange cutoff (b ∷ s) z c h = ground (
  arith,
  negative-InRange cutoff (parse_unsigned s) z c,
  positive-InRange cutoff (parse_unsigned s) z,
  positive-InRange cutoff (parse_unsigned (b ∷ s)) z,
)

FitsInt32-InRange : (z : ℤ) → InRange (2 ^ 31) z → FitsInt32 z
FitsInt32-InRange (pos n) h = h
FitsInt32-InRange (negsuc n) h = h

narrow_parsed :
    (o : Option ℤ)
    → ((z : ℤ) → o ≡ some z → FitsInt32 z)
    → narrow (present (or_invalid o)) ≡ present (or_invalid o)
narrow_parsed none h = refl
narrow_parsed (some z) h =
    ap (λ v. ok (record { value = v; valid = true })) (to_int32_of_fits z (h z refl))

-- The conversion to `int32` never changes what was parsed: the result is what a 32-bit
-- `strconv.ParseInt` gives, or the invalid null for the empty text.
pub str_to_null_int32-exact :
    (s : Text) → str_to_null_int32 s ≡ nullable (pos 0) (parse_int (2 ^ 31)) s
unfolding str_to_null_int32
str_to_null_int32-exact s = elim (Bool-cases (s == [])) [
  | inl empty ↦
      rw empty (
        ap (λ v. ok (record { value = v; valid = false })) (to_int32_of_fits (pos 0) (omega arith)))
  | inr present' ↦ rw present' (
      narrow_parsed (parse_int (2 ^ 31) s)
        (λ z e. FitsInt32-InRange z (parse_int-InRange (2 ^ 31) s z (omega arith) e)))
]
