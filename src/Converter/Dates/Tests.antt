-- ===== src/Converter/Dates/Tests.antt =====
-- Runs of the dates in JSON.
use go_utilities.Base.{ℕ, ◌≡◌, refl, none, some, if◌then◌else◌, ◌==◌}
use go_utilities.Base.Result.{ok}
use go_utilities.Base.Text.{codes, text_eq}
use go_utilities.Converter.Dates.{TimeLibrary, unmarshal_date_json}

-- A library that reads only the second layout.
abbrev dates_only : TimeLibrary
dates_only = record {
  Moment = ℕ;
  parse_layout = λ layout s. if layout == codes "2006-01-02" then some 7 else none;
  trim_space = λ s. s;
}

a_quoted_date : unmarshal_date_json dates_only (codes "\"2024-01-02\"") 0 ≡ ok 7
unfolding unmarshal_date_json
a_quoted_date = refl

null_is_kept : unmarshal_date_json dates_only (codes "null") 3 ≡ ok 3
unfolding unmarshal_date_json
null_is_kept = refl
