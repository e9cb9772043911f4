-- ===== src/Converter/Pg.antt =====
-- converter/pg.go and the converters of converter/sqltotype.go.
use go_utilities.Base.{Bool, true, false, [], Option, none, some, if◌then◌else◌}
use go_utilities.Base.Int.{ℤ, pos, to_int32}
use go_utilities.Base.Text.{Text}
use go_utilities.Converter.{Null}

unfoldable pub to_pg_int4 : Option ℤ → Null ℤ
to_pg_int4 none = record { value = pos 0; valid = false }
to_pg_int4 (some z) = record { value = to_int32 z; valid = true }

unfoldable pub to_pg_int4_from_time : ℤ → Null ℤ
to_pg_int4_from_time t = record { value = to_int32 t; valid = true }

unfoldable pub to_pg_int4_from_time_ptr : Option ℤ → Null ℤ
unfolding to_pg_int4_from_time
to_pg_int4_from_time_ptr none = record { value = pos 0; valid = false }
to_pg_int4_from_time_ptr (some t) = to_pg_int4_from_time t

-- A `TimeOrDate` is its time.
unfoldable pub to_pg_int4_from_time_or_date : Option ℤ → Null ℤ
to_pg_int4_from_time_or_date none = record { value = pos 0; valid = false }
to_pg_int4_from_time_or_date (some t) = record { value = to_int32 t; valid = true }

unfoldable pub to_time_or_date_ptr : Option ℤ → Option ℤ
to_time_or_date_ptr none = none
to_time_or_date_ptr (some t) = some t

unfoldable pub to_pg_text : Option Text → Null Text
to_pg_text none = record { value = []; valid = false }
to_pg_text (some s) = record { value = s; valid = true }

unfoldable pub to_pg_bool : Option Bool → Null Bool
to_pg_bool none = record { value = false; valid = false }
to_pg_bool (some b) = record { value = b; valid = true }

unfoldable pub from_pg_int4_ptr : Null ℤ → Option ℤ
from_pg_int4_ptr n = if n.valid then some n.value else none

unfoldable pub from_pg_int4_time_ptr : Null ℤ → Option ℤ
from_pg_int4_time_ptr n = if n.valid then some n.value else none

unfoldable pub from_pg_text : Null Text → Option Text
from_pg_text n = if n.valid then some n.value else none

unfoldable pub from_pg_bool : Null Bool → Option Bool
from_pg_bool n = if n.valid then some n.value else none

-- The `ConvertToPointer` methods of converter/sqltotype.go, whose inputs are not nil.
unfoldable pub convert_to_pointer {ℓ} : {A : Type ℓ} → Null A → Option A
convert_to_pointer n = if n.valid then some n.value else none
