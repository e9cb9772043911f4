-- ===== src/Converter/Dates.antt =====
-- `TimeOrDate` of converter/time.go. What is printed on the console is left out.
mod Tests
use go_utilities.Base.{
  ◌≡◌, ◌≢◌, refl, ◌↔◌, ◌⊎◌, inl, inr, true, false, ◌||◌, List, [], ◌∷◌, Option, none, some,
  if◌then◌else◌, ◌==◌, Bool-cases, Option-cases,
}
use go_utilities.Base.Result.{Result, ok, err, err-ne-ok, ok_inj}
use go_utilities.Base.Text.{Text, codes, text_eq, trim}

-- `time.Parse` of a layout and a text, with `none` for an error, and `strings.TrimSpace`.
pub record TimeLibrary : Type 1 where
  pub Moment : Type 0
  pub parse_layout : Text → Text → Option Moment
  pub trim_space : Text → Text

pub data DateError : Type 0 where
  invalid_time_format : Text → DateError

abbrev pub layouts : List Text
layouts = codes "2006-01-02T15:04:05Z07:00" ∷ codes "2006-01-02" ∷ codes "2006-01-02 15:04:05" ∷ []

module _ (x : TimeLibrary) where
  open x use {Moment, parse_layout, trim_space}

  unfoldable pub first_parsed : List Text → Text → Result DateError Moment
  first_parsed [] s = err (invalid_time_format s)
  first_parsed (l ∷ ls) s = elim (parse_layout l s) [ some m ↦ ok m | none ↦ first_parsed ls s ]

  -- The time after the parse, or an error; the empty text and "null" leave the time as it was.
  unfoldable pub parse_time_or_date : Text → Moment → Result DateError Moment
  unfolding first_parsed
  parse_time_or_date s t = if s == [] || s == codes "null" then ok t else first_parsed layouts s

  unfoldable pub unmarshal_date_json : Text → Moment → Result DateError Moment
  unfolding parse_time_or_date trim
  unmarshal_date_json bytes t = parse_time_or_date (trim b'"' bytes) t

  unfoldable pub unmarshal_date_text : Text → Moment → Result DateError Moment
  unfolding parse_time_or_date
  unmarshal_date_text bytes t = parse_time_or_date (trim_space bytes) t

  -- The first layout that reads the text gives the moment.
  pub data ReadsBy (s : Text) (m : Moment) : List Text → Type 0 where
    here : {l : Text} {ls : List Text} → parse_layout l s ≡ some m → ReadsBy s m (l ∷ ls)
    later :
        {l : Text} {ls : List Text}
        → parse_layout l s ≡ none
        → ReadsBy s m ls
        → ReadsBy s m (l ∷ ls)

  reads-first : (ls : List Text) (s : Text) (m : Moment) → ReadsBy s m ls → first_parsed ls s ≡ ok m
  unfolding first_parsed
  reads-first [] s m r = elim r [ ]
  reads-first (l ∷ ls) s m (here e) = rw (first_parsed, e) refl
  reads-first (l ∷ ls) s m (later e r) = rw (first_parsed, e) (reads-first ls s m r)

  first-reads : (ls : List Text) (s : Text) (m : Moment) → first_parsed ls s ≡ ok m → ReadsBy s m ls
  unfolding first_parsed
  first-reads [] s m h = absurd (err-ne-ok h)
  first-reads (l ∷ ls) s m h = elim (Option-cases (parse_layout l s)) [
    | inl absent ↦ later absent (first-reads ls s m (rw (first_parsed, absent) at h))
    | inr (n, found) ↦ here (found_is n found (rw (first_parsed, found) at h))
  ]
    where
      found_is :
          (n : Moment)
          → parse_layout l s ≡ some n
          → ◌≡◌ {A = Result DateError Moment} (ok n) (ok m)
          → parse_layout l s ≡ some m
      found_is n found i = rw found (rw (ok_inj i) refl)

  -- A text that is neither empty nor "null" gives a moment exactly when one of the three layouts reads
  -- it so and those before it do not read it; the time that was there makes no difference.
  pub parse_time_or_date_iff :
      (s : Text) (t m : Moment)
      → (s == [] || s == codes "null") ≡ false
      → (parse_time_or_date s t ≡ ok m) ↔ ReadsBy s m layouts
  unfolding parse_time_or_date
  parse_time_or_date_iff s t m given =
      (λ h. first-reads layouts s m (rw given at h), λ r. rw given (reads-first layouts s m r))
