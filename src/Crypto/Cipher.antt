-- ===== src/Crypto/Cipher.antt =====
-- What the encryption service and the key providers share: errors, AES-GCM as crypto/cipher has
-- it, random bytes, and the interface crypto/api/interface.go of a key provider.
use go_utilities.Base.{ℕ, ◌≡◌, Bool, ◌||◌, Option, none, some, ◌==◌, nat_eq, length}
use go_utilities.Base.Text.{Text}

pub data Error : Type 0 where
  kek_failed dek_failed wrap_failed unwrap_failed cipher_failed nonce_failed : Error
  metadata_failed metadata_missing metadata_malformed nonce_malformed : Error
  wrapped_too_short decrypt_failed : Error

pub data Result {ℓ} (A : Type ℓ) : Type ℓ where
  ok : A → Result A
  err : Error → Result A

infixl 5 ◌>>=◌
abbrev pub ◌>>=◌ {ℓ κ} : {A : Type ℓ} {B : Type κ} → Result A → (A → Result B) → Result B
err failure >>= next = err failure
ok got >>= next = next got

abbrev pub or_fail {ℓ} : {A : Type ℓ} → Option A → Error → Result A
or_fail none e = err e
or_fail (some a) e = ok a

-- `fmt.Errorf("...: %w", err)` around the error of a call.
abbrev pub relabel {ℓ} : {A : Type ℓ} → Error → Result A → Result A
relabel e (ok a) = ok a
relabel e (err inner) = err e

-- A buffer of `n` bytes that `rand.Read` has filled.
pub record Filled (n : ℕ) : Type 0 where
  pub bytes : Text
  pub filled : length bytes ≡ n

-- `KeySize` and the nonce size of `cipher.NewGCM`.
abbrev pub key_size : ℕ
key_size = 32

abbrev pub nonce_size : ℕ
nonce_size = 12

-- `aes.NewCipher` takes keys of 16, 24 and 32 bytes.
abbrev pub is_key : Text → Bool
is_key key = length key == 16 || (length key == 24 || length key == 32)

-- AES-GCM: `seal key nonce plaintext aad` and `open_sealed key nonce ciphertext aad`, for a nonce
-- of `nonce_size` bytes.
pub record Gcm : Type 0 where
  pub seal : Text → Text → Text → Text → Text
  pub open_sealed : Text → Text → Text → Text → Option Text

-- What is sealed opens, under the same key, nonce and additional data.
abbrev pub Opens : Gcm → Type 0
Opens g =
    (key nonce plaintext aad : Text)
    → g.open_sealed key nonce (g.seal key nonce plaintext aad) aad ≡ some plaintext

-- The operations of `KMSProvider` that the service calls. `Draws` is what a call reads of the
-- random source.
pub record KmsProvider : Type 1 where
  pub State : Type 0
  pub Draws : Type 0
  pub generate_dek : Draws → State → Result (Text × Text)
  pub unwrap_dek : Text → State → Result Text
  pub get_key_id : State → Text

-- A key that the provider has generated is unwrapped to what it was.
abbrev pub Unwraps : KmsProvider → Type 0
Unwraps k =
    (d : k.Draws) (s : k.State) (dek wrapped : Text)
    → k.generate_dek d s ≡ ok (dek, wrapped)
    → k.unwrap_dek wrapped s ≡ ok dek
