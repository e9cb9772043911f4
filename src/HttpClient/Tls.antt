-- ===== src/HttpClient/Tls.antt =====
-- `createCustomTransport` and `loadClientCertificate` of httpclient/HttpClient.go.
pub mod Sources
use go_utilities.Base.{
  Bool, true, false, ◌&&◌, not, List, [], ◌∷◌, ◌++◌, Option, none, some, if◌then◌else◌, ◌==◌,
  is_empty,
}
use go_utilities.Base.Result.{Result, ok, err, ◌>>=◌, or_fail}
use go_utilities.Base.Text.{Text, text_eq}
use go_utilities.HttpClient.Config.{TlsClientConfig}

pub data TlsError : Type 0 where
  read_ca_cert append_ca_cert load_pem_certs parse_pem read_p12_file decode_p12 parse_p12 : TlsError

-- os.ReadFile, and the certificates of crypto/tls, crypto/x509, encoding/pem and pkcs12, with
-- `none` for an error. `append_certs` adds to a pool and fails where the text has no certificate.
pub record Certificates : Type 1 where
  pub Certificate : Type 0
  pub Pool : Type 0
  pub Block : Type 0
  pub read_file : Text → Option Text
  pub load_key_pair : Text → Text → Option Certificate
  pub key_pair : Text → Text → Option Certificate
  pub to_pem : Text → Text → Option (List Block)
  pub encode : Block → Text
  pub new_pool : Pool
  pub append_certs : Text → Pool → Option Pool

-- `x != "" && y != ""`
abbrev pub both : Text → Text → Bool
both x y = not (x == []) && not (y == [])

module _ (x : Certificates) where
  open x use {
    Certificate, Pool, Block, read_file, load_key_pair, key_pair, to_pem, encode, new_pool,
    append_certs,
  }

  unfoldable pub encode_all : List Block → Text
  encode_all [] = []
  encode_all (b ∷ bs) = encode b ++ encode_all bs

  -- The value of the PKCS#12 container: read from the path, where that and a password are set.
  unfoldable pub p12_value : TlsClientConfig → Result TlsError Text
  p12_value cfg =
      if both cfg.client_p12_path cfg.client_p12_password
      then or_fail read_p12_file (read_file cfg.client_p12_path)
      else ok cfg.client_p12_value

  abbrev pub p12_pair : Text → Text → Result TlsError Certificate
  p12_pair value password = or_fail decode_p12 (to_pem value password) >>= λ blocks.
      or_fail parse_p12 (key_pair (encode_all blocks) (encode_all blocks))

  abbrev pub present : Result TlsError Certificate → Result TlsError (Option Certificate)
  present r = r >>= λ c. ok (some c)

  abbrev pub from_p12 : Text → Text → Result TlsError (Option Certificate)
  from_p12 value password =
      if both value password then present (p12_pair value password) else ok none

  -- A certificate, `none` where no source is configured, or an error.
  unfoldable pub load_client_certificate : TlsClientConfig → Result TlsError (Option Certificate)
  unfolding p12_value
  load_client_certificate cfg =
      if both cfg.client_cert_path cfg.client_key_path
      then present (or_fail load_pem_certs (load_key_pair cfg.client_cert_path cfg.client_key_path))
      else if both cfg.client_cert_pem cfg.client_key_pem
      then present (or_fail parse_pem (key_pair cfg.client_cert_pem cfg.client_key_pem))
      else (p12_value cfg >>= λ value. from_p12 value cfg.client_p12_password)

  unfoldable pub append_all : List Text → Pool → Result TlsError Pool
  append_all [] pool = ok pool
  append_all (path ∷ paths) pool = or_fail read_ca_cert (read_file path) >>= λ text.
      or_fail append_ca_cert (append_certs text pool) >>= append_all paths

  -- `tls.Config`, as far as it is set; `none` for the system's roots.
  pub record Transport : Type 0 where
    pub insecure_skip_verify : Bool
    pub root_cas : Option Pool
    pub certificate : Option Certificate

  abbrev pub roots : List Text → Result TlsError (Option Pool)
  roots paths =
      if is_empty paths then ok none else (append_all paths new_pool >>= λ pool. ok (some pool))

  unfoldable pub create_custom_transport : TlsClientConfig → Result TlsError Transport
  unfolding append_all load_client_certificate
  create_custom_transport cfg = do
    pool ← roots cfg.ca_cert_paths
    certificate ← load_client_certificate cfg
    ok (record {
      insecure_skip_verify = cfg.skip_tls_verify;
      root_cas = pool;
      certificate = certificate;
    })
