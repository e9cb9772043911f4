-- ===== src/FormValidator/Laws.antt =====
-- The map that is returned, and the error.
use go_utilities.Base.{
  ◌≡◌, refl, ap, ◌∙◌, ◌⊎◌, inl, inr, ◌≢◌, String, Bool, false, ◌||◌, List, [], ◌∷◌, ◌++◌, Option,
  none, some, arith, if◌then◌else◌, ◌==◌, string_eq, eq_iff, All, Bool-cases,
}
use go_utilities.Base.Dict.{Dict, lookup, insert}
use go_utilities.Base.Dict.Laws.{lookup-insert, IsDistinct, insert-IsDistinct}
use go_utilities.Base.Text.{Text, text_eq, text_beq_iff, ne_of_text_beq}
use go_utilities.Converter.{Error, Result, ok, err}
use go_utilities.FormValidator.{
  Form, store, ◌>>=◌, validate_fields, form_validator, copy, parse_from_form, StringResult, strings,
  missing, string_fields, parse_string_from_form,
}

abbrev pub is_in : String → List String → Bool
is_in k [] = false
is_in k (j ∷ js) = j == k || is_in k js

abbrev pub value_of {ℓ} : {T : Type ℓ} → Result T → Option T
value_of (ok v) = some v
value_of (err e) = none

module _ {ℓ} {T : Type ℓ} (validator : Text → Result T) (form : Form) where
  -- What a map holds when the fields have been validated on top of `before`.
  abbrev pub Holds : List String → Dict T → Dict T → Type ℓ
  Holds fields before after =
      (k : String)
      → lookup k after ≡ (if is_in k fields then value_of (validator (form k)) else lookup k before)

  -- The validators of the fields up to the first error.
  abbrev pub FirstError : List String → Error → Type ℓ
  FirstError fields e =
      (before : List String) × (field : String) × (after : List String) × (fields
        ≡ before ++ field ∷ after)
      × All (λ k. (v : T) × (validator (form k) ≡ ok v)) before
      × (validator (form field) ≡ err e)

  abbrev pub Validates : List String → Dict T → Result (Dict T) → Type ℓ
  Validates fields before r =
      ((after : Dict T) × (r ≡ ok after)
        × Holds fields before after
        × (IsDistinct before → IsDistinct after)
        × All (λ k. (v : T) × (validator (form k) ≡ ok v)) fields)
      ⊎ ((e : Error) × (r ≡ err e) × FirstError fields e)

  validate_cons :
      (field : String) (fields : List String) (before : Dict T) (r : Result T)
      → validator (form field) ≡ r
      → ((m : Dict T) → Validates fields m (validate_fields validator form fields m))
      → Validates
          (field ∷ fields)
          before
          (store field before r >>= validate_fields validator form fields)
  validate_cons field fields before (err e) p ih = inr (e, refl, ([], field, fields, refl, tt, p))
  validate_cons field fields before (ok v) p ih = elim (ih (insert field v before)) [
    | inl (after, r, holds, distinct, valid) ↦ inl (
      after,
      r,
      λ k. holds k ∙ ground (arith, lookup-insert field k v before, eq_iff field k, p),
      λ d. distinct (insert-IsDistinct field v before d),
      ((v, p), valid),
    )
    | inr (e, r, (start, bad, rest, split, valid, fails)) ↦
        inr (e, r, (field ∷ start, bad, rest, ap (◌∷◌ field) split, ((v, p), valid), fails))
  ]

  validate_fields-Validates :
      (fields : List String) (before : Dict T)
      → Validates fields before (validate_fields validator form fields before)
  unfolding validate_fields
  validate_fields-Validates [] before = inl (before, refl, λ k. refl, λ d. d, tt)
  validate_fields-Validates (field ∷ fields) before =
      validate_cons field fields before (validator (form field)) refl
        (λ m. validate_fields-Validates fields m)

  copy-lookup :
      (k : String) (parsed result : Dict T)
      → IsDistinct parsed
      → lookup k (copy parsed result)
        ≡ (elim (lookup k parsed) [ none ↦ lookup k result | some v ↦ some v ])
  unfolding copy lookup
  copy-lookup k [] result d = refl
  copy-lookup k ((j, v) ∷ parsed) result (fresh, d) =
      copy-lookup k parsed (insert j v result) d
      ∙ ground (arith, lookup-insert j k v result, eq_iff j k)

  copied : (k : String) (m : Dict T) → IsDistinct m → lookup k (copy m []) ≡ lookup k m
  unfolding lookup
  copied k m d = copy-lookup k m [] d ∙ ground arith

  -- What `ParseFromForm` gives for the fields.
  abbrev pub Parses : List String → Result (Dict T) → Type ℓ
  Parses fields r =
      ((m : Dict T) × (r ≡ ok m)
        × ((k : String)
            → lookup k m ≡ (if is_in k fields then value_of (validator (form k)) else none))
        × All (λ k. (v : T) × (validator (form k) ≡ ok v)) fields)
      ⊎ ((e : Error) × (r ≡ err e) × FirstError fields e)

  -- Either every field is valid, and the map holds exactly the fields, each with the value that its
  -- validator gives of the form's text; or a field is invalid, and the error is the first one's.
  pub parse_from_form-Parses :
      (fields : List String) → Parses fields (parse_from_form validator form fields)
  unfolding parse_from_form form_validator lookup
  parse_from_form-Parses fields = elim (validate_fields-Validates fields []) [
    | inl (m, r, holds, distinct, valid) ↦ inl (
      copy m [],
      ap (λ q. q >>= λ parsed. ok (copy parsed [])) r,
      λ k. copied k m (distinct tt) ∙ holds k,
      valid,
    )
    | inr (e, r, first) ↦ inr (e, ap (λ q. q >>= λ parsed. ok (copy parsed [])) r, first)
  ]

-- What `ParseStringFromForm` gives: every field's text, none of them empty; or the name of the first
-- field whose text is empty.
abbrev pub ParsesStrings : Form → List String → Dict Text → StringResult → Type 0
ParsesStrings form fields before r =
    ((m : Dict Text) × (r ≡ strings m)
      × ((k : String) → lookup k m ≡ (if is_in k fields then some (form k) else lookup k before))
      × All (λ k. form k ≢ []) fields)
    ⊎ ((start : List String) × (field : String) × (rest : List String) × (r ≡ missing field)
        × (fields ≡ start ++ field ∷ rest)
        × All (λ k. form k ≢ []) start
        × (form field ≡ []))

string_fields-ParsesStrings :
    (form : Form) (fields : List String) (before : Dict Text)
    → ParsesStrings form fields before (string_fields form fields before)
unfolding string_fields
string_fields-ParsesStrings form [] before = inl (before, refl, λ k. refl, tt)
string_fields-ParsesStrings form (field ∷ fields) before = elim (Bool-cases (form field == [])) [
  | inl empty ↦
      inr ([], field, fields, rw empty refl, refl, tt, (text_beq_iff (form field) []).0 empty)
  | inr given ↦ elim (string_fields-ParsesStrings form fields (insert field (form field) before)) [
    | inl (m, r, holds, valid) ↦ inl (
      m,
      rw given r,
      λ k. holds k ∙ ground (arith, lookup-insert field k (form field) before, eq_iff field k),
      (ne_of_text_beq (form field) [] given, valid),
    )
    | inr (start, bad, rest, r, split, valid, empty) ↦ inr (
      field ∷ start,
      bad,
      rest,
      rw given r,
      ap (◌∷◌ field) split,
      (ne_of_text_beq (form field) [] given, valid),
      empty,
    )
  ]
]

-- Either every field has a text that is not empty, and the map holds exactly the fields with their
-- texts; or a field's text is missing or empty, and the error names the first such field.
pub parse_string_from_form-ParsesStrings :
    (form : Form) (fields : List String)
    → ParsesStrings form fields [] (parse_string_from_form form fields)
unfolding parse_string_from_form
parse_string_from_form-ParsesStrings form fields = string_fields-ParsesStrings form fields []
