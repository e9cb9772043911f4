-- ===== src/FormValidator/Tests.antt =====
-- Runs, and the theorems at concrete inputs.
use go_utilities.Base.{◌≡◌, refl, [], ◌∷◌, if◌then◌else◌, ◌==◌, string_eq}
use go_utilities.Base.Dict.{insert}
use go_utilities.Base.Int.{pos, parse_int}
use go_utilities.Base.Text.{codes, text_eq}
use go_utilities.Converter.{ok, str_to_int}
use go_utilities.FormValidator.{
  Form, parse_from_form, form_validator, validate_fields, copy, parse_string_from_form, missing,
}
use go_utilities.FormValidator.Laws.{Parses, parse_from_form-Parses}

abbrev posted : Form
posted field = if field == "age" then codes "41" else if field == "size" then codes "7" else []

two_fields :
    parse_from_form str_to_int posted ("age" ∷ "size" ∷ [])
    ≡ ok (("age", pos 41) ∷ ("size", pos 7) ∷ [])
unfolding parse_from_form form_validator validate_fields copy insert str_to_int parse_int
two_fields = refl

no_name : parse_string_from_form posted ("age" ∷ "name" ∷ "size" ∷ []) ≡ missing "name"
unfolding parse_string_from_form insert
no_name = refl

parse_from_form-Parses_example :
    Parses str_to_int posted
      ("age" ∷ "size" ∷ [])
      (parse_from_form str_to_int posted ("age" ∷ "size" ∷ []))
parse_from_form-Parses_example = parse_from_form-Parses str_to_int posted ("age" ∷ "size" ∷ [])
