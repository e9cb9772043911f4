-- ===== src/HttpClient/Tls/Sources.antt =====
-- Which source of a client certificate is used, and what a transport has.
use go_utilities.Base.{
  ◌≢◌, ◌≡◌, refl, sym, ◌∙◌, subst, ◌↔◌, ◌⊎◌, true, false, [], ◌∷◌, List, Option, none, some, ◌==◌,
  Bool-cases, Option-cases, inl, inr,
}
use go_utilities.Base.Result.{Result, ok, err, or_fail, ok_inj, >>=-eq-ok}
use go_utilities.Base.Text.{Text, text_eq, text_beq_iff}
use go_utilities.HttpClient.Config.{TlsClientConfig}
use go_utilities.HttpClient.Tls.{
  TlsError, load_pem_certs, parse_pem, read_p12_file, decode_p12, parse_p12, Certificates, both,
  p12_value, encode_all, present, from_p12, load_client_certificate, create_custom_transport,
  Transport, roots, append_all,
}

module _ (x : Certificates) where
  open x use {Certificate, Block, read_file, load_key_pair, key_pair, to_pem}

  -- Both texts of a source are set, or one of them is not.
  abbrev pub Complete : Text → Text → Type 0
  Complete a b = (a ≢ []) × (b ≢ [])

  abbrev pub Incomplete : Text → Text → Type 0
  Incomplete a b = (a ≡ []) ⊎ (b ≡ [])

  both-cases :
      (a b : Text) → ((both a b ≡ true) × Complete a b) ⊎ ((both a b ≡ false) × Incomplete a b)
  both-cases a b = elim (Bool-cases (a == [])) [
    | inl no_a ↦ inr (rw no_a refl, inl ((text_beq_iff a []).0 no_a))
    | inr is_a ↦ elim (Bool-cases (b == [])) [
      | inl no_b ↦ inr (rw (is_a, no_b) refl, inr ((text_beq_iff b []).0 no_b))
      | inr is_b ↦ inl (rw (is_a, is_b) refl, (filled a is_a, filled b is_b))
    ]
  ]
    where
      filled : (t : Text) → (t == []) ≡ false → t ≢ []
      filled t h e = let hit = (text_beq_iff t []).1 e in cc

  -- A source gives its certificate, or the error e.
  pub data Gives (e : TlsError)
      : Option Certificate → Result TlsError (Option Certificate) → Type 0 where
    got : (c : Certificate) → Gives e (some c) (ok (some c))
    failed : Gives e none (err e)

  Gives-present : (e : TlsError) (o : Option Certificate) → Gives e o (present x (or_fail e o))
  Gives-present e none = failed
  Gives-present e (some c) = got c

  -- The PKCS#12 value: the file of its path where that and a password are set, else the one given.
  pub data HasValue (cfg : TlsClientConfig) : Text → Type 0 where
    value_read :
        (v : Text)
        → Complete cfg.client_p12_path cfg.client_p12_password
        → read_file cfg.client_p12_path ≡ some v
        → HasValue cfg v
    value_given :
        Incomplete cfg.client_p12_path cfg.client_p12_password → HasValue cfg cfg.client_p12_value

  -- What a PKCS#12 value and its password give.
  pub data FromValue (v password : Text) : Result TlsError (Option Certificate) → Type 0 where
    undecoded :
        Complete v password → to_pem v password ≡ none → FromValue v password (err decode_p12)
    decoded :
        (blocks : List Block) (r : Result TlsError (Option Certificate))
        → Complete v password
        → to_pem v password ≡ some blocks
        → Gives parse_p12 (key_pair (encode_all x blocks) (encode_all x blocks)) r
        → FromValue v password r
    no_value : Incomplete v password → FromValue v password (ok none)

  FromValue-from_p12 : (v password : Text) → FromValue v password (from_p12 x v password)
  FromValue-from_p12 v password = elim (both-cases v password) [
    | inr (no_source, gap) ↦ rw no_source (no_value gap)
    | inl (source, full) ↦ elim (Option-cases (to_pem v password)) [
      | inl bad ↦ rw (source, bad) (undecoded full bad)
      | inr (blocks, good) ↦
          rw (source, good) (decoded blocks _ full good (Gives-present parse_p12 _))
    ]
  ]

  -- What a client's configuration gives: the first complete source and no other.
  pub data Loads (cfg : TlsClientConfig) : Result TlsError (Option Certificate) → Type 0 where
    by_paths :
        (r : Result TlsError (Option Certificate))
        → Complete cfg.client_cert_path cfg.client_key_path
        → Gives load_pem_certs (load_key_pair cfg.client_cert_path cfg.client_key_path) r
        → Loads cfg r
    by_pem :
        (r : Result TlsError (Option Certificate))
        → Incomplete cfg.client_cert_path cfg.client_key_path
        → Complete cfg.client_cert_pem cfg.client_key_pem
        → Gives parse_pem (key_pair cfg.client_cert_pem cfg.client_key_pem) r
        → Loads cfg r
    p12_unread :
        Incomplete cfg.client_cert_path cfg.client_key_path
        → Incomplete cfg.client_cert_pem cfg.client_key_pem
        → Complete cfg.client_p12_path cfg.client_p12_password
        → read_file cfg.client_p12_path ≡ none
        → Loads cfg (err read_p12_file)
    by_p12 :
        (v : Text) (r : Result TlsError (Option Certificate))
        → Incomplete cfg.client_cert_path cfg.client_key_path
        → Incomplete cfg.client_cert_pem cfg.client_key_pem
        → HasValue cfg v
        → FromValue v cfg.client_p12_password r
        → Loads cfg r

  -- A client's certificate is that of the first source whose two parts are both set: the pair of
  -- paths, the pair of PEM texts, or the PKCS#12 value, read from its path where that and the
  -- password are set, with its password. Where that source fails, the result is its error and no other source is tried; only
  -- where none is complete is there neither a certificate nor an error.
  pub load_client_certificate-Loads :
      (cfg : TlsClientConfig) → Loads cfg (load_client_certificate x cfg)
  unfolding load_client_certificate p12_value
  load_client_certificate-Loads cfg = elim (both-cases cfg.client_cert_path cfg.client_key_path) [
    | inl (paths, full) ↦ rw paths (by_paths _ full (Gives-present load_pem_certs _))
    | inr (no_paths, gap) ↦ elim (both-cases cfg.client_cert_pem cfg.client_key_pem) [
      | inl (pem, full) ↦ rw (no_paths, pem) (by_pem _ gap full (Gives-present parse_pem _))
      | inr (no_pem, open') ↦ elim (both-cases cfg.client_p12_path cfg.client_p12_password) [
        | inr (no_path, none_read) ↦
            rw (no_paths, no_pem, no_path)
              (by_p12 _ _ gap open' (value_given none_read) (FromValue-from_p12 _ _))
        | inl (path, full) ↦ elim (Option-cases (read_file cfg.client_p12_path)) [
          | inl bad ↦ rw (no_paths, no_pem, path, bad) (p12_unread gap open' full bad)
          | inr (v, read) ↦
              rw (no_paths, no_pem, path, read)
                (by_p12 v _ gap open' (value_read v full read) (FromValue-from_p12 _ _))
        ]
      ]
    ]
  ]

  roots-none :
      (paths : List Text) (pool : Option x.Pool)
      → roots x paths ≡ ok pool
      → (pool ≡ none) ↔ (paths ≡ [])
  roots-none [] pool h = (λ _. refl, λ _. sym (ok_inj h))
  roots-none (path ∷ paths) pool h =
      let (filled, _, e) = >>=-eq-ok (append_all x (path ∷ paths) x.new_pool) _ h in
      (λ n. absurd (some-ne (ok_inj e ∙ n)), λ n. absurd (cons-ne n))
    where
      some-ne : {p : x.Pool} → some p ≡ none → ⊥
      some-ne i = cc

      cons-ne : path ∷ paths ≡ [] → ⊥
      cons-ne i = cc

  -- What is stated of a transport.
  abbrev pub Has : TlsClientConfig → Transport x → Type 0
  Has cfg t =
      (t.insecure_skip_verify ≡ cfg.skip_tls_verify)
      × ((t.root_cas ≡ none) ↔ (cfg.ca_cert_paths ≡ []))
      × (load_client_certificate x cfg ≡ ok t.certificate)

  -- A transport that has been created verifies servers unless it was configured not to; it has
  -- roots of its own exactly where paths to some were configured; and its certificate is what
  -- `loadClientCertificate` gives.
  pub create_custom_transport-ok :
      (cfg : TlsClientConfig) (t : Transport x) → create_custom_transport x cfg ≡ ok t → Has cfg t
  unfolding create_custom_transport
  create_custom_transport-ok cfg t h =
      let (pool, rooted, h1) = >>=-eq-ok (roots x cfg.ca_cert_paths) _ h in
      let (certificate, loaded, h2) = >>=-eq-ok (load_client_certificate x cfg) _ h1 in
      subst (Has cfg) (ok_inj h2) (refl, roots-none cfg.ca_cert_paths pool rooted, loaded)
