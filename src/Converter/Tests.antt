-- ===== src/Converter/Tests.antt =====
-- Runs, and the theorems at concrete inputs.
use go_utilities.Base.{◌^◌, ◌≡◌, refl, ◌↔◌, some}
use go_utilities.Base.Int.{pos, negsuc, to_int32, parse_int}
use go_utilities.Base.Text.{codes, text_eq}
use go_utilities.Converter.{ok, err, not_valid, nullable, str_to_int, str_to_null_int32}
use go_utilities.Converter.Pg.{to_pg_int4_from_time_ptr, from_pg_int4_time_ptr}
use go_utilities.Converter.Parsing.{str_to_null_int32-exact}
use go_utilities.Converter.Pointers.{FitsPointer, time_ptr-roundtrip_iff}

minus_five : str_to_int (codes "-5") ≡ ok (negsuc 4)
unfolding str_to_int parse_int
minus_five = refl

too_large : str_to_null_int32 (codes "2147483648") ≡ err not_valid
unfolding str_to_null_int32 parse_int
too_large = refl

-- 2038-01-19 03:14:08 UTC comes back as 1901-12-13 20:45:52 UTC.
next_second :
    from_pg_int4_time_ptr (to_pg_int4_from_time_ptr (some (pos 2_147_483_648)))
    ≡ some (negsuc 2_147_483_647)
unfolding from_pg_int4_time_ptr to_pg_int4_from_time_ptr to_int32
next_second = refl

str_to_null_int32-exact_example :
    str_to_null_int32 (codes "41") ≡ nullable (pos 0) (parse_int (2 ^ 31)) (codes "41")
str_to_null_int32-exact_example = str_to_null_int32-exact (codes "41")

time_ptr-roundtrip_iff_example :
    (from_pg_int4_time_ptr (to_pg_int4_from_time_ptr (some (pos 2_147_483_648)))
      ≡ some (pos 2_147_483_648))
    ↔ FitsPointer (some (pos 2_147_483_648))
time_ptr-roundtrip_iff_example = time_ptr-roundtrip_iff (some (pos 2_147_483_648))
