-- ===== src/Server/Redaction.antt =====
-- server/Middleware.go: `redactSensitiveQueryParams`. `url.ParseQuery`, with `none` for an error,
-- and `Values.Encode` are parameters; `Values` is the list of its keys, each with its values.
use go_utilities.Base.{
  ◌≡◌, ◌≢◌, ◌∙◌, sym, refl, ap, ap₂, Bool, true, false, ◌||◌, List, [], ◌∷◌, Option, none, some,
  if◌then◌else◌, ◌==◌, Bool-cases, inl, inr,
}
use go_utilities.Base.Text.{Text, codes, text_eq, text_beq_iff, to_lower, contains}

abbrev pub Values : Type 0
Values = List (Text × List Text)

abbrev pub sensitive_query_params : List Text
sensitive_query_params =
    codes "token"
    ∷ codes "api_token"
    ∷ codes "apitoken"
    ∷ codes "api_key"
    ∷ codes "apikey"
    ∷ codes "password"
    ∷ codes "passwd"
    ∷ codes "pwd"
    ∷ codes "secret"
    ∷ codes "auth"
    ∷ codes "authorization"
    ∷ codes "access_token"
    ∷ codes "refresh_token"
    ∷ codes "session"
    ∷ codes "session_id"
    ∷ codes "sessionid"
    ∷ codes "api-key"
    ∷ codes "api-token"
    ∷ []

-- The inner loop: whether it reaches `values.Set`.
unfoldable pub matches_any : Text → List Text → Bool
matches_any key [] = false
matches_any key (sensitive ∷ rest) =
    if key == sensitive || contains key sensitive then true else matches_any key rest

unfoldable pub is_sensitive : Text → Bool
is_sensitive key = matches_any (to_lower key) sensitive_query_params

-- The loop over the keys: `values.Set(key, "[REDACTED]")` replaces all values of the key.
unfoldable pub redact : Values → Values
redact [] = []
redact ((key, held) ∷ values) =
    (if is_sensitive key then (key, codes "[REDACTED]" ∷ []) else (key, held)) ∷ redact values

module _ (parse_query : Text → Option Values) (encode : Values → Text) where
  unfoldable pub redact_sensitive_query_params : Text → Text
  redact_sensitive_query_params raw =
      if raw == []
      then []
      else (elim (parse_query raw) [ none ↦ raw | some values ↦ encode (redact values) ])

  read_lem :
      (raw : Text) (vs : Values)
      → raw ≢ []
      → parse_query raw ≡ some vs
      → redact_sensitive_query_params raw ≡ encode (redact vs)
  unfolding redact_sensitive_query_params
  read_lem raw vs n read = elim (Bool-cases (raw == [])) [
    | inl e ↦ absurd (n ((text_beq_iff raw []).0 e))
    | inr e ↦ rw (e, read) refl
  ]

  -- The same keys in the same order, and the same values of each that is not sensitive.
  abbrev pub Alike : Values → Values → Type 0
  Alike [] [] = Unit {0}
  Alike [] (w ∷ ws) = ⊥
  Alike (v ∷ vs) [] = ⊥
  Alike (v ∷ vs) (w ∷ ws) = (v.0 ≡ w.0) × (is_sensitive v.0 ≡ false → v.1 ≡ w.1) × Alike vs ws

  redact-Alike : (vs ws : Values) → Alike vs ws → redact vs ≡ redact ws
  unfolding redact
  redact-Alike [] [] h = refl
  redact-Alike [] (w ∷ ws) h = absurd h
  redact-Alike (v ∷ vs) [] h = absurd h
  redact-Alike ((k, v) ∷ vs) ((j, w) ∷ ws) (key, same, rest) = elim (Bool-cases (is_sensitive k)) [
    | inl hidden ↦ ap₂ (◌∷◌) (rw (← key, hidden) refl) (redact-Alike vs ws rest)
    | inr shown ↦ ap₂ (◌∷◌) (rw (← key, shown, same shown) refl) (redact-Alike vs ws rest)
  ]

  -- Of two queries that are not empty and are read as the same keys in the same order, with the same
  -- values of those keys that are not sensitive, the redacted texts are the same: they tell nothing
  -- of the values of sensitive keys.
  pub redact_sensitive_query_params-hides :
      (raw raw' : Text) (vs ws : Values)
      → raw ≢ []
      → raw' ≢ []
      → parse_query raw ≡ some vs
      → parse_query raw' ≡ some ws
      → Alike vs ws
      → redact_sensitive_query_params raw ≡ redact_sensitive_query_params raw'
  redact_sensitive_query_params-hides raw raw' vs ws n n' read read' h =
      read_lem raw vs n read ∙ ap encode (redact-Alike vs ws h) ∙ sym (read_lem raw' ws n' read')
