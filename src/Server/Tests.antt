-- ===== src/Server/Tests.antt =====
-- Runs, and the theorems at concrete inputs.
use go_utilities.Base.{
  ◌≡◌, ◌∙◌, sym, refl, ◌≤◌, ◌<◌, ◌⊎◌, true, false, [], ◌∷◌, ◌++◌, Option, none, some, length,
}
use go_utilities.Base.Int.{pos}
use go_utilities.Base.Text.{Text, codes, split, join, to_lower, contains, starts_with}
use go_utilities.Server.Errors.{
  GoError, postgres, wrapped, not_found, new_error, respond, last_name,
  parse_unique_violation_field,
}
use go_utilities.Server.Disclosure.{respond-new_error, respond-foreign}
use go_utilities.Server.Redaction.{
  Values, is_sensitive, matches_any, redact_sensitive_query_params,
  redact_sensitive_query_params-hides,
}
use go_utilities.Server.Violations.{IsLast, AllSuffixes, parse_unique_violation_field_lem}

abbrev duplicate : GoError
duplicate =
    wrapped (codes "insert user")
      (postgres (record { code = codes "23505"; constraint_name = codes "users_email_key" }))

respond-new_error_example :
    respond [] (some (new_error (codes "a.go:1") not_found (codes "user 7") (some duplicate)))
    ≡ respond (codes "t") (some (new_error (codes "b.go:2") not_found (codes "user 8") none))
respond-new_error_example =
    respond-new_error [] (codes "t") (codes "a.go:1") (codes "b.go:2") not_found (codes "user 7")
      (codes "user 8") (some duplicate) none (λ h. cc)

respond-foreign_example :
    (respond (codes "t") (some duplicate) ≡ respond [] none)
    × ((respond (codes "t") (some duplicate)).0 ≡ pos 500)
respond-foreign_example = respond-foreign (codes "t") [] (some duplicate) refl

-- Queries with one key: the text up to "=" is the key.
abbrev parse_one : Text → Option Values
parse_one raw = elim (split b'=' raw) [ [] ↦ none | key ∷ held ↦ some ((key, held) ∷ []) ]

abbrev encode_one : Values → Text
encode_one [] = []
encode_one ((key, held) ∷ rest) = key ++ b'=' ∷ join b',' held

api_token-is_sensitive : is_sensitive (codes "api_token") ≡ true
unfolding is_sensitive matches_any to_lower contains starts_with
api_token-is_sensitive = refl

true-ne-false : true ≡ false → ⊥
true-ne-false h = cc

redact_sensitive_query_params-hides_example :
    redact_sensitive_query_params parse_one encode_one (codes "api_token=x")
    ≡ redact_sensitive_query_params parse_one encode_one (codes "api_token=y")
unfolding split
redact_sensitive_query_params-hides_example =
    redact_sensitive_query_params-hides parse_one encode_one (codes "api_token=x")
      (codes "api_token=y") ((codes "api_token", codes "x" ∷ []) ∷ [])
      ((codes "api_token", codes "y" ∷ []) ∷ []) (λ h. cc) (λ h. cc) refl refl
      (refl, λ h. absurd (true-ne-false (sym api_token-is_sensitive ∙ h)), tt)

email : parse_unique_violation_field (codes "users_email_key") ≡ codes "email"
unfolding parse_unique_violation_field last_name split
email = refl

-- Of a column whose name has an underscore, only the last word is found.
name_only : parse_unique_violation_field (codes "users_first_name_key") ≡ codes "name"
unfolding parse_unique_violation_field last_name split
name_only = refl

parse_unique_violation_field_lem_example :
    ((2 ≤ length (split b'_' (codes "users_email_key")))
      × IsLast
          (parse_unique_violation_field (codes "users_email_key"))
          (split b'_' (codes "users_email_key")))
    ⊎ ((parse_unique_violation_field (codes "users_email_key") ≡ codes "users_email_key")
        × ((length (split b'_' (codes "users_email_key")) < 2)
            ⊎ AllSuffixes (split b'_' (codes "users_email_key"))))
parse_unique_violation_field_lem_example =
    parse_unique_violation_field_lem (codes "users_email_key")
