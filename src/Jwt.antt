-- ===== src/Jwt.antt =====
-- jwt/Jwt.go. Text is ASCII bytes. The parser and verifier of tokens, the key sets, the URL parser,
-- the HTTP client, the cache and the environment are parameters.
pub mod Header
pub mod Realm
pub mod Verify
pub mod Tests
use go_utilities.Base.{
  ℕ, String, ◌≡◌, Bool, true, false, ◌&&◌, not, List, [], ◌∷◌, Option, none, some, leb, ltb, length,
  if◌then◌else◌, ◌==◌,
}
use go_utilities.Base.Dict.{Dict, lookup, insert}
use go_utilities.Base.Text.{Text, codes, split, trim, text_eq, parse_bool}

-- The errors of `getJWKSet`, and those of the package, one for each message.
pub data FetchError : Type 0 where
  bad_endpoint bad_request request_failed : FetchError
  http_status : ℕ → FetchError
  body_unreadable jwks_undecodable : FetchError

pub data Error : Type 0 where
  header_missing header_format : Error
  too_few_segments realm_not_found no_realms_segment : Error
  token_unparsable issuer_missing issuer_malformed wrong_base_url wrong_host : Error
  realm_missing audience_missing kid_missing key_not_found key_malformed : Error
  jwks_failed : FetchError → Error
  not_verified invalid_token : Error

pub data Result {ℓ} (A : Type ℓ) : Type ℓ where
  ok : A → Result A
  err : Error → Result A

infixl 5 ◌>>=◌
abbrev pub ◌>>=◌ {ℓ κ} : {A : Type ℓ} {B : Type κ} → Result A → (A → Result B) → Result B
err failure >>= next = err failure
ok got >>= next = next got

abbrev pub or_fail {ℓ} : {A : Type ℓ} → Option A → Error → Result A
or_fail none e = err e
or_fail (some a) e = ok a

abbrev bearer : Text
bearer = codes "Bearer"

-- `len(parts) != 2 || parts[0] != "Bearer"`, and then `parts[1]`
unfoldable pub second_of_bearer : List Text → Result Text
second_of_bearer (scheme ∷ token ∷ []) = if scheme == bearer then ok token else err header_format
second_of_bearer _ = err header_format

-- `header` is `r.Header.Get("Authorization")`, empty where the header is absent.
unfoldable pub extract_token : Text → Result Text
extract_token header =
    let auth = trim b';' header in
    if auth == [] then err header_missing else second_of_bearer (split b' ' auth)

abbrev realms : Text
realms = codes "realms"

-- what follows the segment "realms"
abbrev realm_after : List Text → Result Text
realm_after [] = err realm_not_found
realm_after (part ∷ parts) = if part == [] then err realm_not_found else ok part

unfoldable pub find_realm : List Text → Result Text
find_realm [] = err no_realms_segment
find_realm (part ∷ parts) = if part == realms then realm_after parts else find_realm parts

unfoldable pub extract_realm_from_path : Text → Result Text
extract_realm_from_path path =
    if ltb (length (split b'/' path)) 3
    then err too_few_segments
    else find_realm (split b'/' (trim b'/' path))

-- A claim or header value: a JSON string, or anything else.
pub data Claim : Type 0 where
  text : Text → Claim
  other : ℕ → Claim

-- `v, ok := m[key].(string)`
abbrev pub as_text : Option Claim → Option Text
as_text none = none
as_text (some (text t)) = some t
as_text (some (other n)) = none

pub record Token : Type 0 where
  pub header : Dict Claim
  pub claims : Dict Claim

-- The fields of `httpclient.Config` that `getJWKSet` sets; the timeout is in seconds.
pub record FetchConfig : Type 0 where
  pub retry_count : ℕ
  pub timeout : ℕ
  pub skip_tls_verify : Bool

-- A response; an error of reading the body is `none`.
pub record Response : Type 0 where
  pub status : ℕ
  pub body : Option Text

pub record ParserOptions : Type 0 where
  pub valid_methods : List Text
  pub issuer : Text
  pub leeway : ℕ
  pub audience : Option Text

-- The code that the package calls, with `none` for an error.
pub record Externals : Type 1 where
  pub Jwks : Type 0
  pub Key : Type 0
  pub PublicKey : Type 0
  pub parse_unverified : Text → Option Token
  pub parse_with_claims : Text → PublicKey → ParserOptions → Option Bool
  pub url_host : Text → Option Text
  pub url_path : Text → Text
  pub join_path : Text → Text → Option Text
  pub new_request_ok : Text → Bool
  pub perform : FetchConfig → Text → Option Response
  pub parse_jwks : Text → Option Jwks
  pub lookup_key_id : Text → Jwks → Option Key
  pub raw_key : Key → Option PublicKey
  pub getenv : Text → Text

-- `skipTLS`: false unless the variable is set to a text that `strconv.ParseBool` reads.
unfoldable pub skip_tls : Text → Bool
skip_tls v = if v == [] then false else (elim (parse_bool v) [ none ↦ false | some b ↦ b ])

-- Steps 1 to 3: what is read from the token before its signature is checked.
pub record Unverified : Type 0 where
  pub token : Token
  pub issuer : Text
  pub realm : Text

abbrev same_host : Text → Text → Result Text
same_host host org = if host == org then ok host else err wrong_host

abbrev any_realm_error : Result Text → Result Text
any_realm_error (ok realm) = ok realm
any_realm_error (err e) = err realm_missing

abbrev valid_or : Option Bool → Result (Unit {0})
valid_or none = err not_verified
valid_or (some false) = err invalid_token
valid_or (some true) = ok tt

module _ (x : Externals) where
  open x use {
    Jwks, Key, PublicKey, parse_unverified, parse_with_claims, url_host, url_path, join_path,
    new_request_ok, perform, parse_jwks, lookup_key_id, raw_key, getenv,
  }

  -- What the cache holds; an entry that has expired is not there any more.
  abbrev pub Cache : Type 0
  Cache = Text → Option Jwks

  abbrev fetch_config : FetchConfig
  fetch_config = record {
    retry_count = 2;
    timeout = 10;
    skip_tls_verify = skip_tls (getenv (codes "AUTH_SKIP_TLS_VERIFY"));
  }

  abbrev decode_body : Option Text → Result Jwks
  decode_body none = err (jwks_failed body_unreadable)
  decode_body (some body) = or_fail (parse_jwks body) (jwks_failed jwks_undecodable)

  abbrev read_response : Response → Result Jwks
  read_response r =
      if leb 400 r.status then err (jwks_failed (http_status r.status)) else decode_body r.body

  -- The part of `getJWKSet` behind the cache.
  unfoldable pub fetch : Text → Result Jwks
  fetch issuer = do
    endpoint ←
        or_fail (join_path issuer (codes "protocol/openid-connect/certs"))
          (jwks_failed bad_endpoint)
    r ←
        (if new_request_ok endpoint
          then or_fail (perform fetch_config endpoint) (jwks_failed request_failed)
          else err (jwks_failed bad_request))
    read_response r

  abbrev remember : Cache → Text → Result Jwks → Cache × Result Jwks
  remember cache issuer (err e) = (cache, err e)
  remember cache issuer (ok jwks) = (λ i. if issuer == i then some jwks else cache i, ok jwks)

  unfoldable pub get_jwk_set : Text → Cache → Cache × Result Jwks
  get_jwk_set issuer cache = elim (cache issuer) [
    | some jwks ↦ (cache, ok jwks)
    | none ↦ remember cache issuer (fetch issuer)
  ]

  abbrev parser_options : Text → ParserOptions
  parser_options issuer = record {
    valid_methods = codes "RS256" ∷ [];
    issuer = issuer;
    leeway = 60;
    audience =
        if getenv (codes "AUTH_AUDIENCE") == []
        then none
        else some (getenv (codes "AUTH_AUDIENCE"));
  }

  unfoldable pub read_unverified : Text → Result Unverified
  read_unverified s = do
    token ← or_fail (parse_unverified s) token_unparsable
    issuer ← or_fail (as_text (lookup "iss" token.claims)) issuer_missing
    host ← or_fail (url_host issuer) issuer_malformed
    org ← or_fail (url_host (getenv (codes "AUTH_URL"))) wrong_base_url
    _ ← same_host host org
    realm ← any_realm_error (extract_realm_from_path (url_path issuer))
    _ ← or_fail (as_text (lookup "aud" token.claims)) audience_missing
    ok (record { token = token; issuer = issuer; realm = realm })

  -- The steps after the key set has been fetched.
  unfoldable pub check_signature : Text → Unverified → Jwks → Result (Dict Claim)
  check_signature s u jwks = do
    kid ← or_fail (as_text (lookup "kid" u.token.header)) kid_missing
    key ← or_fail (lookup_key_id kid jwks) key_not_found
    public_key ← or_fail (raw_key key) key_malformed
    _ ← valid_or (parse_with_claims s public_key (parser_options u.issuer))
    ok (insert "realm" (text u.realm) u.token.claims)

  abbrev then_check : Text → Unverified → Cache × Result Jwks → Cache × Result (Dict Claim)
  then_check s u (cache, r) = (cache, r >>= check_signature s u)

  unfoldable pub parse_and_verify_jwt : Text → Cache → Cache × Result (Dict Claim)
  unfolding check_signature
  parse_and_verify_jwt s cache = elim (read_unverified s) [
    | err e ↦ (cache, err e)
    | ok u ↦ then_check s u (get_jwk_set u.issuer cache)
  ]
