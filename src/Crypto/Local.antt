-- ===== src/Crypto/Local.antt =====
-- crypto/adapters/local/local.go: the key provider that keeps its key in memory.
use go_utilities.Base.{
  ℕ, zero, suc, ◌+◌, [], ◌∷◌, ◌++◌, Option, none, some, if◌then◌else◌, ltb, length,
}
use go_utilities.Base.Text.{Text}
use go_utilities.Crypto.Cipher.{
  kek_failed, dek_failed, wrap_failed, nonce_failed, wrapped_too_short, decrypt_failed, Result, ok,
  err, ◌>>=◌, or_fail, relabel, Filled, key_size, nonce_size, Gcm, KmsProvider,
}
use go_utilities.Crypto.Service.{new_cipher}

-- `KeySize` bytes of the key that wraps others.
pub record LocalKmsProvider : Type 0 where
  pub kek : Text
  pub key_name : Text
  pub key_version : ℕ

-- What `GenerateDEK` reads of the random source: the key, and the nonce of its wrapping.
pub record LocalDraws : Type 0 where
  pub dek : Option (Filled key_size)
  pub nonce : Option (Filled nonce_size)

unfoldable pub new_local_kms_provider : Text → Option (Filled key_size) → Result LocalKmsProvider
new_local_kms_provider key_name drawn = do
  kek ← or_fail drawn kek_failed
  ok (record { kek = kek.bytes; key_name = key_name; key_version = 1 })

-- `wrapped[:n]` and `wrapped[n:]`
unfoldable pub slice_to : ℕ → Text → Text
slice_to zero bytes = []
slice_to (suc n) [] = []
slice_to (suc n) (b ∷ bytes) = b ∷ slice_to n bytes

unfoldable pub slice_from : ℕ → Text → Text
slice_from zero bytes = bytes
slice_from (suc n) [] = []
slice_from (suc n) (b ∷ bytes) = slice_from n bytes

-- `fmt.Sprintf("%s:v%d", ...)`, with the decimal text of a number as a parameter.
unfoldable pub local_key_id : (ℕ → Text) → LocalKmsProvider → Text
local_key_id decimal p = p.key_name ++ (b':' ∷ b'v' ∷ decimal p.key_version)

unfoldable pub rotate_key :
    Option (Filled key_size) → LocalKmsProvider → LocalKmsProvider × Result (Unit {0})
rotate_key none p = (p, err kek_failed)
rotate_key (some kek) p = (record p { kek = kek.bytes; key_version = p.key_version + 1 }, ok tt)

module _ (g : Gcm) where
  -- The nonce stands before the ciphertext.
  unfoldable pub wrap_dek : Option (Filled nonce_size) → Text → LocalKmsProvider → Result Text
  wrap_dek drawn plaintext p = do
    key ← new_cipher p.kek
    nonce ← or_fail drawn nonce_failed
    ok (nonce.bytes ++ g.seal key nonce.bytes plaintext [])

  unfoldable pub unwrap_local : Text → LocalKmsProvider → Result Text
  unfolding slice_to slice_from
  unwrap_local wrapped p = do
    key ← new_cipher p.kek
    (if ltb (length wrapped) nonce_size
        then err wrapped_too_short
        else or_fail
            (g.open_sealed key (slice_to nonce_size wrapped) (slice_from nonce_size wrapped) [])
            decrypt_failed)

  unfoldable pub generate_local : LocalDraws → LocalKmsProvider → Result (Text × Text)
  unfolding wrap_dek
  generate_local draws p = do
    dek ← or_fail draws.dek dek_failed
    wrapped ← relabel wrap_failed (wrap_dek draws.nonce dek.bytes p)
    ok (dek.bytes, wrapped)

  abbrev pub local_provider : (ℕ → Text) → KmsProvider
  local_provider decimal = record {
    State = LocalKmsProvider;
    Draws = LocalDraws;
    generate_dek = generate_local;
    unwrap_dek = unwrap_local;
    get_key_id = local_key_id decimal;
  }
