-- ===== src/Crypto/Service.antt =====
-- crypto/service.go: `EncryptMessage` and `DecryptMessage` over a key provider.
use go_utilities.Base.{ℕ, [], ◌∷◌, Option, if◌then◌else◌, ◌==◌, nat_eq, length}
use go_utilities.Base.Dict.{Dict, lookup}
use go_utilities.Base.Run.{Run, returns, panics}
use go_utilities.Base.Text.{Text, codes}
use go_utilities.Crypto.Cipher.{
  cipher_failed, dek_failed, nonce_failed, metadata_failed, metadata_missing, metadata_malformed,
  nonce_malformed, unwrap_failed, decrypt_failed, Result, ok, err, ◌>>=◌, or_fail, relabel, Filled,
  nonce_size, is_key, Gcm, KmsProvider,
}

abbrev pub algorithm : Text
algorithm = codes "AES-256-GCM"

pub record EncryptionMetadata : Type 0 where
  pub algorithm : Text
  pub key_version : ℕ
  pub nonce : Text
  pub aad : Text

pub record EncryptedData : Type 0 where
  pub ciphertext : Text
  pub wrapped_dek : Text
  pub key_id : Text
  pub algorithm : Text
  pub additional_metadata : Dict Text

-- encoding/base64 and encoding/json, for the types that the service gives them.
pub record Codecs : Type 0 where
  pub encode_base64 : Text → Text
  pub decode_base64 : Text → Option Text
  pub marshal : EncryptionMetadata → Option Text
  pub unmarshal : Text → Option EncryptionMetadata

-- `aes.NewCipher` and `cipher.NewGCM`
abbrev pub new_cipher : Text → Result Text
new_cipher key = if is_key key then ok key else err cipher_failed

abbrev pub metadata_of : Codecs → Text → Text → EncryptionMetadata
metadata_of c nonce aad = record {
  algorithm = algorithm;
  key_version = 1;
  nonce = c.encode_base64 nonce;
  aad = c.encode_base64 aad;
}

module _ (g : Gcm) (c : Codecs) (k : KmsProvider) where
  unfoldable pub encrypt_message :
      k.Draws → Option (Filled nonce_size) → Text → Text → k.State → Result EncryptedData
  encrypt_message draws drawn plaintext associated s = do
    generated ← relabel dek_failed (k.generate_dek draws s)
    key ← new_cipher generated.0
    nonce ← or_fail drawn nonce_failed
    metadata ← or_fail (c.marshal (metadata_of c nonce.bytes associated)) metadata_failed
    ok (record {
      ciphertext = g.seal key nonce.bytes plaintext associated;
      wrapped_dek = generated.1;
      key_id = k.get_key_id s;
      algorithm = algorithm;
      additional_metadata = ("metadata", metadata) ∷ [];
    })

  -- Everything before `gcm.Open`: the key and the nonce.
  unfoldable pub opening : EncryptedData → k.State → Result (Text × Text)
  opening sealed s = do
    dek ← relabel unwrap_failed (k.unwrap_dek sealed.wrapped_dek s)
    text ← or_fail (lookup "metadata" sealed.additional_metadata) metadata_missing
    metadata ← or_fail (c.unmarshal text) metadata_malformed
    nonce ← or_fail (c.decode_base64 metadata.nonce) nonce_malformed
    key ← new_cipher dek
    ok (key, nonce)

  -- `gcm.Open` panics on a nonce of another size.
  abbrev pub open_with : Text → Text → Result (Text × Text) → Run (Result Text)
  open_with ciphertext associated (err e) = returns (err e)
  open_with ciphertext associated (ok (key, nonce)) =
      if length nonce == nonce_size
      then returns (or_fail (g.open_sealed key nonce ciphertext associated) decrypt_failed)
      else panics

  unfoldable pub decrypt_message : EncryptedData → Text → k.State → Run (Result Text)
  unfolding opening
  decrypt_message sealed associated s = open_with sealed.ciphertext associated (opening sealed s)
