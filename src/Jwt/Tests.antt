-- ===== src/Jwt/Tests.antt =====
-- Runs, and the theorems at concrete inputs.
use go_utilities.Base.{
  ℕ, ◌≤◌, ◌≡◌, refl, ◌↔◌, ◌≢◌, true, [], ◌∷◌, ◌++◌, none, some, length, if◌then◌else◌, ◌==◌,
}
use go_utilities.Base.Dict.{Dict, lookup, insert}
use go_utilities.Base.Text.{Text, codes, split, trim, text_eq}
use go_utilities.Jwt.{
  ok, extract_token, second_of_bearer, find_realm, extract_realm_from_path, Claim, text, Token,
  Externals, Cache, get_jwk_set, fetch, parse_and_verify_jwt, read_unverified, check_signature,
  Unverified,
}
use go_utilities.Jwt.Realm.{Names, extract_realm_from_path_iff}
use go_utilities.Jwt.Verify.{IsVerified, parse_and_verify_jwt-IsVerified}

bearer_token : extract_token (codes ";Bearer abc;") ≡ ok (codes "abc")
unfolding extract_token second_of_bearer split trim
bearer_token = refl

a_realm : extract_realm_from_path (codes "/auth/realms/acme/") ≡ ok (codes "acme")
unfolding extract_realm_from_path find_realm split trim
a_realm = refl

extract_realm_from_path_iff_example :
    (extract_realm_from_path (codes "/realms/acme") ≡ ok (codes "acme")) ↔ (
      (3 ≤ length (split b'/' (codes "/realms/acme")))
      × Names (codes "acme") (split b'/' (trim b'/' (codes "/realms/acme")))
      × (codes "acme" ≢ []))
extract_realm_from_path_iff_example =
    extract_realm_from_path_iff (codes "/realms/acme") (codes "acme")

abbrev issuer : Text
issuer = codes "https://id/realms/acme"

abbrev token : Token
token = record {
  header = ("kid", text (codes "k1")) ∷ [];
  claims = ("iss", text issuer) ∷ ("aud", text (codes "api")) ∷ [];
}

-- Every URL has the host "id" and the path of the realm; the set, key and public key are numbers.
abbrev world : Externals
world = record {
  Jwks = ℕ;
  Key = ℕ;
  PublicKey = ℕ;
  parse_unverified = λ s. some token;
  parse_with_claims = λ s k o. some true;
  url_host = λ u. some (codes "id");
  url_path = λ u. codes "/realms/acme";
  join_path = λ a b. some (a ++ b);
  new_request_ok = λ u. true;
  perform = λ c u. some (record { status = 200; body = some [] });
  parse_jwks = λ b. some 5;
  lookup_key_id = λ kid set. some 6;
  raw_key = λ k. some 7;
  getenv = λ v. [];
}

abbrev no_cache : Cache world
no_cache i = none

abbrev one_set : Cache world
one_set i = if issuer == i then some 5 else none

abbrev accepted : Dict Claim
accepted = ("iss", text issuer) ∷ ("aud", text (codes "api")) ∷ ("realm", text (codes "acme")) ∷ []

fetched : get_jwk_set world issuer no_cache ≡ (one_set, ok 5)
unfolding get_jwk_set fetch
fetched = refl

a_token_is_accepted : parse_and_verify_jwt world (codes "t") no_cache ≡ (one_set, ok accepted)
unfolding parse_and_verify_jwt read_unverified check_signature get_jwk_set fetch
    extract_realm_from_path find_realm split trim lookup insert
a_token_is_accepted = refl

parse_and_verify_jwt-IsVerified_example :
    (u : Unverified) × (jwks : ℕ) × IsVerified world (codes "t") u jwks accepted
    × (get_jwk_set world u.issuer no_cache ≡ (one_set, ok jwks))
parse_and_verify_jwt-IsVerified_example =
    parse_and_verify_jwt-IsVerified world (codes "t") no_cache one_set accepted a_token_is_accepted
