-- ===== src/Converter/Pointers.antt =====
-- Pointers and null types, back and forth.
use go_utilities.Base.{◌≡◌, refl, ap, subst, ◌↔◌, Option, none, some}
use go_utilities.Base.Int.{ℤ, to_int32, to_int32_fits, to_int32_of_fits, FitsInt32}
use go_utilities.Converter.{int_ptr_to_null_int32, null_int32_to_int}
use go_utilities.Converter.Pg.{
  to_pg_int4, from_pg_int4_ptr, to_pg_int4_from_time_ptr, from_pg_int4_time_ptr,
}

-- A pointer that is nil or points to a value of an `int32`.
abbrev pub FitsPointer : Option ℤ → Type 0
FitsPointer none = Unit {0}
FitsPointer (some z) = FitsInt32 z

-- what comes back of a pointer that goes through an `int32`
through_int32 : Option ℤ → Option ℤ
through_int32 none = none
through_int32 (some z) = some (to_int32 z)

through_int32_iff : (p : Option ℤ) → (through_int32 p ≡ p) ↔ FitsPointer p
unfolding through_int32
through_int32_iff none = (λ _. tt, λ _. refl)
through_int32_iff (some z) =
    (λ h. subst FitsInt32 (unwrap h) (to_int32_fits z), λ h. ap some (to_int32_of_fits z h))
  where
    unwrap : some (to_int32 z) ≡ some z → to_int32 z ≡ z
    unwrap e = cc

int_ptr-through : (p : Option ℤ) → null_int32_to_int (int_ptr_to_null_int32 p) ≡ through_int32 p
unfolding null_int32_to_int int_ptr_to_null_int32 through_int32
int_ptr-through none = refl
int_ptr-through (some z) = refl

pg_int4-through : (p : Option ℤ) → from_pg_int4_ptr (to_pg_int4 p) ≡ through_int32 p
unfolding from_pg_int4_ptr to_pg_int4 through_int32
pg_int4-through none = refl
pg_int4-through (some z) = refl

pg_time-through :
    (p : Option ℤ) → from_pg_int4_time_ptr (to_pg_int4_from_time_ptr p) ≡ through_int32 p
unfolding from_pg_int4_time_ptr to_pg_int4_from_time_ptr through_int32
pg_time-through none = refl
pg_time-through (some z) = refl

-- A pointer to an `int` that becomes a null `int32`, of `database/sql` or of `pgtype`, comes back as
-- it was exactly when it is nil or its value is in the range of an `int32`.
pub int_ptr-roundtrip_iff :
    (p : Option ℤ)
    → ((null_int32_to_int (int_ptr_to_null_int32 p) ≡ p) ↔ FitsPointer p)
      × ((from_pg_int4_ptr (to_pg_int4 p) ≡ p) ↔ FitsPointer p)
int_ptr-roundtrip_iff p =
    (rw (int_ptr-through p) (through_int32_iff p), rw (pg_int4-through p) (through_int32_iff p))

-- A pointer to a time that becomes a `pgtype.Int4` comes back at the same second exactly when it is
-- nil or its Unix time is in the range of an `int32`.
pub time_ptr-roundtrip_iff :
    (p : Option ℤ) → (from_pg_int4_time_ptr (to_pg_int4_from_time_ptr p) ≡ p) ↔ FitsPointer p
time_ptr-roundtrip_iff p = rw (pg_time-through p) (through_int32_iff p)
