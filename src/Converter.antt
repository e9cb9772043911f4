-- ===== src/Converter.antt =====
-- converter/: texts to values, SQL null types to pointers and back. A pointer is an `Option`; a
-- `time.Time` is its Unix time in seconds; `strconv.ParseFloat` and `time.Parse` with the layout
-- "2006-01-02" are parameters where they are used. Texts are ASCII bytes.
pub mod Pg
pub mod Dates
pub mod Parsing
pub mod Pointers
pub mod Tests
use go_utilities.Base.{
  ℕ, ◌^◌, Bool, true, false, not, List, [], ◌∷◌, Option, none, some, if◌then◌else◌, ◌==◌, leb,
}
use go_utilities.Base.Int.{ℤ, pos, negsuc, to_int32, parse_int}
use go_utilities.Base.Text.{Text, parse_bool, text_eq}

pub data Error : Type 0 where
  empty_string not_valid negative_timestamp : Error

pub data Result {ℓ} (A : Type ℓ) : Type ℓ where
  ok : A → Result A
  err : Error → Result A

-- `sql.NullInt32` and the other null types, and those of `pgtype`.
pub record Null {ℓ} (A : Type ℓ) : Type ℓ where
  pub value : A
  pub valid : Bool

abbrev pub or_invalid {ℓ} : {A : Type ℓ} → Option A → Result A
or_invalid none = err not_valid
or_invalid (some a) = ok a

-- `if str == "" { … error … }`, then the parser
abbrev pub non_empty {ℓ} : {A : Type ℓ} → (Text → Option A) → Text → Result A
non_empty parse s = if s == [] then err empty_string else or_invalid (parse s)

abbrev pub present {ℓ} : {A : Type ℓ} → Result A → Result (Null A)
present (err e) = err e
present (ok a) = ok (record { value = a; valid = true })

-- `if str == "" { return …{Valid: false}, nil }`, then the parser
abbrev pub nullable {ℓ} : {A : Type ℓ} → A → (Text → Option A) → Text → Result (Null A)
nullable zero parse s =
    if s == [] then ok (record { value = zero; valid = false }) else present (or_invalid (parse s))

abbrev int64_cutoff : ℕ
int64_cutoff = 2 ^ 63

abbrev int32_cutoff : ℕ
int32_cutoff = 2 ^ 31

-- `IntConverter`, by `strconv.Atoi`; `int` has 64 bits
unfoldable pub str_to_int : Text → Result ℤ
str_to_int = non_empty (parse_int int64_cutoff)

unfoldable pub str_to_bool : Text → Result Bool
str_to_bool = non_empty parse_bool

pub str_to_float {ℓ} : {F : Type ℓ} → (Text → Option F) → Text → Result F
str_to_float parse_float = non_empty parse_float

-- `time.Parse` gives the Unix time.
unfoldable pub str_to_date : (Text → Option ℤ) → Text → Result ℤ
str_to_date parse_date = non_empty parse_date

-- The value -1 that comes with the error is left out.
abbrev rewrap {ℓ} : {A : Type ℓ} → Result A → Result A
rewrap (err e) = err not_valid
rewrap (ok a) = ok a

unfoldable pub str_to_unix_time : (Text → Option ℤ) → Text → Result ℤ
unfolding str_to_date
str_to_unix_time parse_date s = rewrap (str_to_date parse_date s)

abbrev narrow : Result (Null ℤ) → Result (Null ℤ)
narrow (err e) = err e
narrow (ok n) = ok (record n { value = to_int32 n.value })

unfoldable pub str_to_null_int32 : Text → Result (Null ℤ)
str_to_null_int32 s = narrow (nullable (pos 0) (parse_int int32_cutoff) s)

unfoldable pub str_to_null_int64 : Text → Result (Null ℤ)
str_to_null_int64 = nullable (pos 0) (parse_int int64_cutoff)

pub str_to_null_float64 {ℓ} : {F : Type ℓ} → F → (Text → Option F) → Text → Result (Null F)
str_to_null_float64 zero parse_float = nullable zero parse_float

unfoldable pub str_to_null_bool : Text → Result (Null Bool)
str_to_null_bool = nullable false parse_bool

unfoldable pub str_to_null_str : Text → Null Text
str_to_null_str s = record { value = s; valid = not (s == []) }

-- `zero_time` is the Unix time of the zero `time.Time`.
abbrev pub zero_time : ℤ
zero_time = negsuc 62_135_596_799

unfoldable pub str_to_null_time : (Text → Option ℤ) → Text → Result (Null ℤ)
str_to_null_time parse_date = nullable zero_time parse_date

abbrev null_unix : Result (Null ℤ) → Result (Null ℤ)
null_unix (err e) = err not_valid
null_unix (ok n) = ok (if n.valid then n else record { value = pos 0; valid = false })

unfoldable pub str_to_unix_null_time : (Text → Option ℤ) → Text → Result (Null ℤ)
unfolding str_to_null_time
str_to_unix_null_time parse_date s = null_unix (str_to_null_time parse_date s)

-- `NullToPointer`: nil for a nil or invalid input, else the converted value.
unfoldable pub null_to_pointer {ℓ κ} :
    {T : Type ℓ} {P : Type κ} → (T → P) → Option (Null T) → Option P
null_to_pointer convert none = none
null_to_pointer convert (some n) = if n.valid then some (convert n.value) else none

abbrev same {ℓ} : {A : Type ℓ} → A → A
same a = a

unfoldable pub null_str_to_str : Null Text → Option Text
unfolding null_to_pointer
null_str_to_str n = null_to_pointer same (some n)

unfoldable pub null_bool_to_bool : Null Bool → Option Bool
unfolding null_to_pointer
null_bool_to_bool n = null_to_pointer same (some n)

unfoldable pub null_int32_to_int : Null ℤ → Option ℤ
unfolding null_to_pointer
null_int32_to_int n = null_to_pointer same (some n)

unfoldable pub null_int64_to_int : Null ℤ → Option ℤ
unfolding null_to_pointer
null_int64_to_int n = null_to_pointer same (some n)

unfoldable pub null_time_to_time : Null ℤ → Option ℤ
unfolding null_to_pointer
null_time_to_time n = null_to_pointer same (some n)

unfoldable pub null_int32_to_time : Null ℤ → Option ℤ
unfolding null_to_pointer
null_int32_to_time n = null_to_pointer same (some n)

unfoldable pub int_ptr_to_null_int32 : Option ℤ → Null ℤ
int_ptr_to_null_int32 none = record { value = pos 0; valid = false }
int_ptr_to_null_int32 (some z) = record { value = to_int32 z; valid = true }

unfoldable pub time_ptr_to_unix_int : Option ℤ → Option ℤ
time_ptr_to_unix_int none = none
time_ptr_to_unix_int (some t) = some t

unfoldable pub bool_ptr_to_null_bool : Option Bool → Null Bool
bool_ptr_to_null_bool none = record { value = false; valid = false }
bool_ptr_to_null_bool (some b) = record { value = b; valid = true }

-- `FromUnixTime` refuses a negative timestamp.
unfoldable pub from_unix_time : ℤ → Result ℤ
from_unix_time (pos n) = ok (pos n)
from_unix_time (negsuc n) = err negative_timestamp
