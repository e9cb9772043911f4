-- ===== src/FormValidator.antt =====
-- formvalidator/: named form values to maps of values. A request is its `FormValue` function. The
-- values that `FormValidator` keeps as `interface{}` have the type of their validator, so the
-- assertion `v.(T)` of `ParseFromForm` holds and the copy is the same map.
pub mod Laws
pub mod Tests
use go_utilities.Base.{
  String, Bool, true, false, List, [], ◌∷◌, Option, none, some, if◌then◌else◌, ◌==◌, not,
}
use go_utilities.Base.Dict.{Dict, insert, rework}
use go_utilities.Base.Int.{ℤ, pos, to_int32}
use go_utilities.Base.Text.{Text, text_eq}
use go_utilities.Converter.{
  Error, Null, Result, ok, err, str_to_int, str_to_bool, str_to_float, str_to_date,
  str_to_unix_time, str_to_null_int32, str_to_null_int64, str_to_null_float64, str_to_null_bool,
  str_to_null_str, str_to_null_time, str_to_unix_null_time,
}

abbrev pub Form : Type 0
Form = String → Text

-- The loop of `FormValidator`: the first error ends it.
abbrev pub store {ℓ} : {T : Type ℓ} → String → Dict T → Result T → Result (Dict T)
store field parsed (err e) = err e
store field parsed (ok v) = ok (insert field v parsed)

infixl 5 ◌>>=◌
abbrev pub ◌>>=◌ {ℓ κ} : {A : Type ℓ} {B : Type κ} → Result A → (A → Result B) → Result B
ok a >>= f = f a
err e >>= f = err e

unfoldable pub validate_fields {ℓ} :
    {T : Type ℓ} → (Text → Result T) → Form → List String → Dict T → Result (Dict T)
validate_fields validator form [] parsed = ok parsed
validate_fields validator form (field ∷ fields) parsed =
    store field parsed (validator (form field)) >>= validate_fields validator form fields

unfoldable pub form_validator {ℓ} :
    {T : Type ℓ} → (Text → Result T) → Form → List String → Result (Dict T)
form_validator validator form fields = validate_fields validator form fields []

-- The copy of `ParseFromForm`: `result[k] = v.(T)` for every entry.
unfoldable pub copy {ℓ} : {T : Type ℓ} → Dict T → Dict T → Dict T
copy [] result = result
copy ((k, v) ∷ parsed) result = copy parsed (insert k v result)

unfoldable pub parse_from_form {ℓ} :
    {T : Type ℓ} → (Text → Result T) → Form → List String → Result (Dict T)
parse_from_form validator form fields =
    form_validator validator form fields >>= λ parsed. ok (copy parsed [])

-- A string that is missing or empty is an error that names its field.
pub data StringResult : Type 0 where
  strings : Dict Text → StringResult
  missing : String → StringResult

unfoldable pub string_fields : Form → List String → Dict Text → StringResult
string_fields form [] parsed = strings parsed
string_fields form (field ∷ fields) parsed =
    let rest = string_fields form fields (insert field (form field) parsed) in
    if form field == [] then missing field else rest

unfoldable pub parse_string_from_form : Form → List String → StringResult
unfolding string_fields
parse_string_from_form form fields = string_fields form fields []

pub parse_int_from_form : Form → List String → Result (Dict ℤ)
parse_int_from_form = parse_from_form str_to_int

pub parse_bool_from_form : Form → List String → Result (Dict Bool)
parse_bool_from_form = parse_from_form str_to_bool

pub parse_float_from_form {ℓ} :
    {F : Type ℓ} → (Text → Option F) → Form → List String → Result (Dict F)
parse_float_from_form parse_float = parse_from_form (str_to_float parse_float)

pub parse_null_float64_from_form {ℓ} :
    {F : Type ℓ} → F → (Text → Option F) → Form → List String → Result (Dict (Null F))
parse_null_float64_from_form zero parse_float =
    parse_from_form (str_to_null_float64 zero parse_float)

pub parse_null_int32_from_form : Form → List String → Result (Dict (Null ℤ))
parse_null_int32_from_form = parse_from_form str_to_null_int32

pub parse_null_int64_from_form : Form → List String → Result (Dict (Null ℤ))
parse_null_int64_from_form = parse_from_form str_to_null_int64

pub parse_null_bool_from_form : Form → List String → Result (Dict (Null Bool))
parse_null_bool_from_form = parse_from_form str_to_null_bool

-- The validator of null strings does not fail.
pub parse_null_string_from_form : Form → List String → Result (Dict (Null Text))
parse_null_string_from_form = parse_from_form (λ s. ok (str_to_null_str s))

module _ (parse_date : Text → Option ℤ) where
  pub parse_date_form_form : Form → List String → Result (Dict ℤ)
  parse_date_form_form = parse_from_form (str_to_date parse_date)

  pub parse_unix_time_from_form : Form → List String → Result (Dict ℤ)
  parse_unix_time_from_form = parse_from_form (str_to_unix_time parse_date)

  pub parse_null_time_from_form : Form → List String → Result (Dict (Null ℤ))
  parse_null_time_from_form = parse_from_form (str_to_null_time parse_date)

  unfoldable pub parse_null_unix_time_from_form : Form → List String → Result (Dict (Null ℤ))
  parse_null_unix_time_from_form = parse_from_form (str_to_unix_null_time parse_date)

  abbrev to_null32 : Null ℤ → Null ℤ
  to_null32 v =
      if v.valid
      then record { value = to_int32 v.value; valid = true }
      else record { value = pos 0; valid = false }

  -- `for k, v := range parsed { result[k] = … }`
  unfoldable pub copy32 : Dict (Null ℤ) → Dict (Null ℤ) → Dict (Null ℤ)
  copy32 [] result = result
  copy32 ((k, v) ∷ parsed) result = copy32 parsed (insert k (to_null32 v) result)

  unfoldable pub parse_null_unix_time32_from_form : Form → List String → Result (Dict (Null ℤ))
  parse_null_unix_time32_from_form form fields =
      parse_from_form (str_to_unix_null_time parse_date) form fields >>= λ parsed.
      ok (copy32 parsed [])
