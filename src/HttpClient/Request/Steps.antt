-- ===== src/HttpClient/Request/Steps.antt =====
-- What the steps of a request give, as relations, and that the code follows them.
use go_utilities.Base.{
  ◌≡◌, refl, sym, ◌∙◌, ap, ◌↔◌, ◌⊎◌, Bool, true, false, String, [], ◌∷◌, ◌++◌, Option, none, some,
  Bool-cases, Option-cases, inl, inr, arith, subst,
}
use go_utilities.Base.Dict.{Dict, insert}
use go_utilities.Base.Result.{ok, or_fail, err-ne-ok, ok_inj, >>=-eq-ok}
use go_utilities.Base.Text.{Text, codes, text_eq, starts_with}
use go_utilities.HttpClient.Url.{build_url, inject_query_params, request_url, is_absolute}
use go_utilities.HttpClient.Request.{
  HttpLibrary, Payload, no_payload, reader, value, encode_body, content_type, set_headers,
  decode_body,
}

pub some_of_or_fail {ℓ} :
    {E : Type 0} {A : Type ℓ} (e : E) (o : Option A) {a : A} → or_fail e o ≡ ok a → o ≡ some a
some_of_or_fail e none h = absurd (err-ne-ok h)
some_of_or_fail e (some b) h = ap some (ok_inj h)

starts_with-prefix : (p s : Text) → starts_with p s ≡ true → (rest : Text) × (s ≡ p ++ rest)
unfolding starts_with
starts_with-prefix [] s h = (s, refl)
starts_with-prefix (c ∷ p) [] h = cc
starts_with-prefix (c ∷ p) (d ∷ s) h =
    let (rest, e) = starts_with-prefix p s (ground (arith, h)) in
    let same : c ≡ d = ground (arith, h) in (rest, ap (λ a. a ∷ s) (sym same) ∙ ap (λ t. c ∷ t) e)

starts_with-append : (p rest : Text) → starts_with p (p ++ rest) ≡ true
unfolding starts_with
starts_with-append [] rest = refl
starts_with-append (c ∷ p) rest = ground (arith, starts_with-append p rest)

-- A path that is a URL of its own.
abbrev pub IsUrl : Text → Type 0
IsUrl path =
    ((rest : Text) × (path ≡ codes "http://" ++ rest))
    ⊎ ((rest : Text) × (path ≡ codes "https://" ++ rest))

-- The URL of a request before its query.
pub data Addresses (base path : Text) : Text → Type 0 where
  whole : IsUrl path → Addresses base path path
  joined : (IsUrl path → ⊥) → Addresses base path (build_url base (path ∷ []))

is_absolute_iff : (path : Text) → (is_absolute path ≡ true) ↔ IsUrl path
is_absolute_iff path = (found, tested)
  where
    found : is_absolute path ≡ true → IsUrl path
    found h = elim (Bool-cases (starts_with (codes "http://") path)) [
      | inl plain ↦ inl (starts_with-prefix _ path plain)
      | inr other ↦ inr (starts_with-prefix _ path (rw other at h))
    ]

    tested : IsUrl path → is_absolute path ≡ true
    tested (inl (rest, e)) = rw (e, starts_with-append (codes "http://") rest) refl
    tested (inr (rest, e)) = rw (e, starts_with-append (codes "https://") rest) ground arith

pub Addresses-request_url : (base path : Text) → Addresses base path (request_url base path)
unfolding request_url
Addresses-request_url base path = elim (Bool-cases (is_absolute path)) [
  | inl yes' ↦ rw yes' (whole ((is_absolute_iff path).0 yes'))
  | inr no' ↦ rw no' (joined (λ u. apart ((sym no') ∙ (is_absolute_iff path).1 u)))
]
  where
    apart : false ≡ true → ⊥
    apart e = cc

pub Addresses-eq : (base path : Text) {t : Text} → Addresses base path t → t ≡ request_url base path
unfolding request_url
Addresses-eq base path (whole u) = rw ((is_absolute_iff path).1 u) refl
Addresses-eq base path (joined n) = elim (Bool-cases (is_absolute path)) [
  | inl yes' ↦ absurd (n ((is_absolute_iff path).0 yes'))
  | inr no' ↦ rw no' refl
]

module _ (x : HttpLibrary) where
  open x use {Value, url, marshal, unmarshal, canonical}
  open url use {ParsedUrl, parse, with_query}

  -- The body of a payload.
  pub data Encodes : Payload Value → Option Text → Type 0 where
    no_body : Encodes no_payload none
    is_read : (t : Text) → Encodes (reader t) (some t)
    is_marshalled : (v : Value) (t : Text) → marshal v ≡ some t → Encodes (value v) (some t)

  -- The URL with the query of the parameters; one that does not parse is left as it is.
  pub data Queries : Text → Dict Text → Text → Type 0 where
    no_params : (raw : Text) → Queries raw [] raw
    unparsed : (raw : Text) (p : _) (ps : Dict Text) → parse raw ≡ none → Queries raw (p ∷ ps) raw
    queried :
        (raw : Text) (p : _) (ps : Dict Text) (u : ParsedUrl)
        → parse raw ≡ some u
        → Queries raw (p ∷ ps) (with_query (p ∷ ps) u)

  abbrev pub json_header : Dict Text
  json_header = (canonical "Content-Type", codes "application/json") ∷ []

  -- The headers before those of the caller.
  pub data Starts : Payload Value → Dict Text → Type 0 where
    bare : Starts no_payload []
    read_json : (t : Text) → Starts (reader t) json_header
    value_json : (v : Value) → Starts (value v) json_header

  -- The caller's headers are set one after the other, over those that stand there.
  pub data Sets : Dict Text → Dict Text → Dict Text → Type 0 where
    all_set : (d : Dict Text) → Sets [] d d
    one_set :
        (k : String) (v : Text) (given d r : Dict Text)
        → Sets given (insert (canonical k) v d) r
        → Sets ((k, v) ∷ given) d r

  -- The result of a body, none where the caller wants none.
  pub data Decodes : Bool → Text → Option Value → Type 0 where
    unwanted : (t : Text) → Decodes false t none
    is_decoded : (t : Text) (v : Value) → unmarshal t ≡ some v → Decodes true t (some v)

  pub Encodes-encode_body :
      (p : Payload Value) (b : Option Text) → encode_body x p ≡ ok b → Encodes p b
  Encodes-encode_body no_payload b h = subst (Encodes no_payload) (ok_inj h) no_body
  Encodes-encode_body (reader t) b h = subst (Encodes (reader t)) (ok_inj h) (is_read t)
  Encodes-encode_body (value v) b h =
      let (t, e, i) = >>=-eq-ok (or_fail _ (marshal v)) _ h in
      subst (Encodes (value v)) (ok_inj i) (is_marshalled v t (some_of_or_fail _ _ e))

  pub encode_body-Encodes :
      {p : Payload Value} {b : Option Text} → Encodes p b → encode_body x p ≡ ok b
  encode_body-Encodes no_body = refl
  encode_body-Encodes (is_read t) = refl
  encode_body-Encodes (is_marshalled v t e) = rw e refl

  pub Decodes-decode_body :
      (wanted : Bool) (t : Text) (r : Option Value)
      → decode_body x wanted t ≡ ok r
      → Decodes wanted t r
  Decodes-decode_body false t r h = subst (Decodes false t) (ok_inj h) (unwanted t)
  Decodes-decode_body true t r h =
      let (v, e, i) = >>=-eq-ok (or_fail _ (unmarshal t)) _ h in
      subst (Decodes true t) (ok_inj i) (is_decoded t v (some_of_or_fail _ _ e))

  pub decode_body-Decodes :
      {wanted : Bool} {t : Text} {r : Option Value}
      → Decodes wanted t r
      → decode_body x wanted t ≡ ok r
  decode_body-Decodes (unwanted t) = refl
  decode_body-Decodes (is_decoded t v e) = rw e refl

  pub Queries-inject_query_params :
      (raw : Text) (params : Dict Text) → Queries raw params (inject_query_params url raw params)
  unfolding inject_query_params
  Queries-inject_query_params raw [] = no_params raw
  Queries-inject_query_params raw (p ∷ ps) = elim (Option-cases (parse raw)) [
    | inl bad ↦ rw bad (unparsed raw p ps bad)
    | inr (u, good) ↦ rw good (queried raw p ps u good)
  ]

  pub Queries-eq :
      {raw t : Text} {params : Dict Text}
      → Queries raw params t
      → t ≡ inject_query_params url raw params
  unfolding inject_query_params
  Queries-eq (no_params raw) = refl
  Queries-eq (unparsed raw p ps bad) = rw bad refl
  Queries-eq (queried raw p ps u good) = rw good refl

  pub Starts-content_type : (p : Payload Value) → Starts p (content_type x p)
  unfolding insert
  Starts-content_type no_payload = bare
  Starts-content_type (reader t) = read_json t
  Starts-content_type (value v) = value_json v

  pub Starts-eq : {p : Payload Value} {d : Dict Text} → Starts p d → d ≡ content_type x p
  unfolding insert
  Starts-eq bare = refl
  Starts-eq (read_json t) = refl
  Starts-eq (value_json v) = refl

  pub Sets-set_headers : (given d : Dict Text) → Sets given d (set_headers x given d)
  unfolding set_headers
  Sets-set_headers [] d = all_set d
  Sets-set_headers ((k, v) ∷ given) d = one_set k v given d _ (Sets-set_headers given _)

  pub Sets-eq : {given d r : Dict Text} → Sets given d r → r ≡ set_headers x given d
  unfolding set_headers
  Sets-eq (all_set d) = refl
  Sets-eq (one_set k v given d r i) = Sets-eq i
