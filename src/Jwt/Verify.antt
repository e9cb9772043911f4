-- ===== src/Jwt/Verify.antt =====
-- What has been checked when a token is accepted, and when key sets are fetched.
use go_utilities.Base.{
  ◌≡◌, refl, sym, subst, ◌∙◌, ap, Bool, true, false, Option, none, some, arith, Option-cases, inl,
  inr, ◌⊎◌,
}
use go_utilities.Base.Dict.{Dict, lookup, insert}
use go_utilities.Base.Text.{Text, codes, text_beq_iff, text_eq}
use go_utilities.Jwt.{
  Result, ok, err, ◌>>=◌, Error, or_fail, extract_realm_from_path, Claim, text, as_text, Externals,
  parser_options, Unverified, same_host, any_realm_error, read_unverified, valid_or,
  check_signature, get_jwk_set, Cache, parse_and_verify_jwt, then_check, fetch, remember,
}

>>=-eq-ok {ℓ κ} :
    {S : Type ℓ} {T : Type κ} {end : T} (first : Result S) (next : S → Result T)
    → (first >>= next) ≡ ok end
    → (got : S) × (first ≡ ok got) × (next got ≡ ok end)
>>=-eq-ok (err failure) next h = cc
>>=-eq-ok (ok got) next h = (got, refl, h)

some_of_or_fail {ℓ} :
    {A : Type ℓ} (o : Option A) (e : Error) {a : A} → or_fail o e ≡ ok a → o ≡ some a
some_of_or_fail none e h = cc
some_of_or_fail (some a) e h = cc

same_host-eq : (host org : Text) {t : Text} → same_host host org ≡ ok t → host ≡ org
same_host-eq host org h = ground (arith, text_beq_iff host org)

realm_of_ok : (r : Result Text) {realm : Text} → any_realm_error r ≡ ok realm → r ≡ ok realm
realm_of_ok (ok realm) h = h
realm_of_ok (err e) h = cc

valid_of_ok : (o : Option Bool) → valid_or o ≡ ok tt → o ≡ some true
valid_of_ok none h = cc
valid_of_ok (some false) h = cc
valid_of_ok (some true) h = refl

module _ (x : Externals) where
  open x use {
    Jwks, Key, PublicKey, parse_unverified, parse_with_claims, url_host, url_path, lookup_key_id,
    raw_key, getenv,
  }

  -- What the code establishes of the token before its signature.
  pub record IsRead (s : Text) (u : Unverified) : Type 0 where
    pub parsed : parse_unverified s ≡ some u.token
    pub issued : as_text (lookup "iss" u.token.claims) ≡ some u.issuer
    pub same_host : url_host u.issuer ≡ url_host (getenv (codes "AUTH_URL"))
    pub in_realm : extract_realm_from_path (url_path u.issuer) ≡ ok u.realm
    pub audience : (t : Text) × (as_text (lookup "aud" u.token.claims) ≡ some t)

  read_unverified-IsRead : (s : Text) (u : Unverified) → read_unverified x s ≡ ok u → IsRead s u
  unfolding read_unverified
  read_unverified-IsRead s u h =
      let (token, parsed, h1) = >>=-eq-ok _ _ h in
      let (issuer, issued, h2) = >>=-eq-ok _ _ h1 in
      let (host, hosted, h3) = >>=-eq-ok _ _ h2 in
      let (org, based, h4) = >>=-eq-ok _ _ h3 in
      let (_, same, h5) = >>=-eq-ok _ _ h4 in
      let (realm, found, h6) = >>=-eq-ok _ _ h5 in
      let (aud, meant, h7) = >>=-eq-ok _ _ h6 in
      subst (IsRead s) (result h7) (record {
        parsed = some_of_or_fail _ _ parsed;
        issued = some_of_or_fail _ _ issued;
        same_host =
            some_of_or_fail _ _ hosted
            ∙ ap some (same_host-eq host org same)
            ∙ sym (some_of_or_fail _ _ based);
        in_realm = realm_of_ok _ found;
        audience = (aud, some_of_or_fail _ _ meant);
      })
    where
      result : {v : Unverified} → ok v ≡ ok u → v ≡ u
      result e = cc

  -- A token that is accepted.
  pub record IsVerified (s : Text) (read : Unverified) (jwks : Jwks) (claims : Dict Claim)
      : Type 0 where
    pub checked : IsRead s read
    pub kid : Text
    pub named : as_text (lookup "kid" read.token.header) ≡ some kid
    pub key : Key
    pub listed : lookup_key_id kid jwks ≡ some key
    pub public_key : PublicKey
    pub raw : raw_key key ≡ some public_key
    pub signed : parse_with_claims s public_key (parser_options x read.issuer) ≡ some true
    pub realm_set : claims ≡ insert "realm" (text read.realm) read.token.claims

  check_signature-IsVerified :
      (s : Text) (u : Unverified) (jwks : Jwks) (claims : Dict Claim)
      → IsRead s u
      → check_signature x s u jwks ≡ ok claims
      → IsVerified s u jwks claims
  unfolding check_signature
  check_signature-IsVerified s u jwks claims read h =
      let (kid, named, h1) = >>=-eq-ok _ _ h in
      let (key, listed, h2) = >>=-eq-ok _ _ h1 in
      let (public_key, raw, h3) = >>=-eq-ok _ _ h2 in
      let (_, signed, h4) = >>=-eq-ok _ _ h3 in
      record {
        checked = read;
        kid = kid;
        named = some_of_or_fail _ _ named;
        key = key;
        listed = some_of_or_fail _ _ listed;
        public_key = public_key;
        raw = some_of_or_fail _ _ raw;
        signed = valid_of_ok _ signed;
        realm_set = ground arith;
      }

  -- Claims are returned only of a token whose issuer has the host of AUTH_URL, a realm in its
  -- path and an audience; whose key id names a key, in the set that `getJWKSet` gives for that
  -- issuer; and which the verifier accepts as valid under that key, for that issuer, by RS256
  -- alone and for AUTH_AUDIENCE where it is set. The claims returned are the token's, with the
  -- realm. The cache is left as `getJWKSet` leaves it.
  pub parse_and_verify_jwt-IsVerified :
      (s : Text) (cache after : Cache x) (claims : Dict Claim)
      → parse_and_verify_jwt x s cache ≡ (after, ok claims)
      → (u : Unverified) × (jwks : Jwks) × IsVerified s u jwks claims
        × (get_jwk_set x u.issuer cache ≡ (after, ok jwks))
  unfolding parse_and_verify_jwt
  parse_and_verify_jwt-IsVerified s cache after claims h = go (read_unverified x s) refl h
    where
      got :
          (u : Unverified) (g : Cache x × Result Jwks)
          → IsRead s u
          → get_jwk_set x u.issuer cache ≡ g
          → then_check x s u g ≡ (after, ok claims)
          → (u : Unverified) × (jwks : Jwks) × IsVerified s u jwks claims
            × (get_jwk_set x u.issuer cache ≡ (after, ok jwks))
      got u (c, ok jwks) read e k = (
        u,
        jwks,
        check_signature-IsVerified s u jwks claims read (ap (λ p. p.1) k),
        e ∙ ap (λ c. (c, ok jwks)) (ap (λ p. p.0) k),
      )
      got u (c, err f) read e k = absurd (err-ne-ok (ap (λ p. p.1) k))
        where
          err-ne-ok : err f ≡ ok claims → ⊥
          err-ne-ok i = cc

      go :
          (r : Result Unverified)
          → read_unverified x s ≡ r
          → (elim r [
            | err e ↦ (cache, err e)
            | ok u ↦ then_check x s u (get_jwk_set x u.issuer cache)
          ])
            ≡ (after, ok claims)
          → (u : Unverified) × (jwks : Jwks) × IsVerified s u jwks claims
            × (get_jwk_set x u.issuer cache ≡ (after, ok jwks))
      go (err e) r k = absurd (err-ne-ok (ap (λ p. p.1) k))
        where
          err-ne-ok : err e ≡ ok claims → ⊥
          err-ne-ok i = cc
      go (ok u) r k = got u (get_jwk_set x u.issuer cache) (read_unverified-IsRead s u r) refl k

  abbrev Fetches : Text → Cache x → Cache x × Result Jwks → Type 0
  Fetches issuer cache g =
      ((jwks : Jwks) × (g.1 ≡ ok jwks) × (g.0 issuer ≡ some jwks))
      ⊎ ((e : Error) × (g ≡ (cache, err e)) × (cache issuer ≡ none))

  -- Fetching a key set either fails, where the cache had none for the issuer, and leaves the cache
  -- as it was; or it gives the set that the cache then holds for the issuer.
  get_jwk_set-Fetches :
      (issuer : Text) (cache : Cache x) → Fetches issuer cache (get_jwk_set x issuer cache)
  unfolding get_jwk_set
  get_jwk_set-Fetches issuer cache = elim (Option-cases (cache issuer)) [
    | inr (jwks, e) ↦ rw (e, get_jwk_set) (inl (jwks, refl, e))
    | inl e ↦ subst (Fetches issuer cache) (sym (rw (e, get_jwk_set))) (fetched (fetch x issuer) e)
  ]
    where
      fetched :
          (r : Result Jwks) → cache issuer ≡ none → Fetches issuer cache (remember x cache issuer r)
      fetched (err f) e = inr (f, refl, e)
      fetched (ok jwks) e = inl (jwks, refl, ground (arith, (text_beq_iff issuer issuer).1 refl))

  -- A key set that has been fetched for an issuer is given again, while the cache keeps it, and the
  -- cache is left as it is.
  pub get_jwk_set_again :
      (issuer : Text) (cache after : Cache x) (jwks : Jwks)
      → get_jwk_set x issuer cache ≡ (after, ok jwks)
      → get_jwk_set x issuer after ≡ (after, ok jwks)
  unfolding get_jwk_set
  get_jwk_set_again issuer cache after jwks h = rw (kept, get_jwk_set) refl
    where
      kept : after issuer ≡ some jwks
      kept = elim (get_jwk_set-Fetches issuer cache) [
        | inl (found, e, held) ↦ ground (arith, h, e, held)
        | inr (f, e, absent) ↦ ground (arith, h, e)
      ]
