-- ===== src/Crypto/Tests.antt =====
-- The theorems at concrete inputs: a cipher that leaves the text as it is, and codecs that write
-- the nonce's length, the nonce and the additional data.
use go_utilities.Base.{◌≡◌, refl, ◌↔◌, [], ◌∷◌, ◌++◌, Option, none, some, length}
use go_utilities.Base.Dict.{lookup}
use go_utilities.Base.Run.{returns, panics}
use go_utilities.Base.Text.{Text, codes}
use go_utilities.Crypto.Cipher.{ok, Filled, key_size, nonce_size, Gcm, KmsProvider}
use go_utilities.Crypto.Service.{
  algorithm, EncryptionMetadata, EncryptedData, Codecs, encrypt_message, opening, decrypt_message,
}
use go_utilities.Crypto.Local.{
  LocalKmsProvider, LocalDraws, slice_to, slice_from, wrap_dek, unwrap_local, generate_local,
  local_provider,
}
use go_utilities.Crypto.RoundTrip.{
  slice_to-append, slice_from-append, IsFaithful, local_provider-Unwraps,
  decrypt_message-encrypt_message,
}
use go_utilities.Crypto.Panics.{HasOddNonce, decrypt_message-panics_iff}

abbrev plain : Gcm
plain = record {
  seal = λ key nonce plaintext aad. plaintext;
  open_sealed = λ key nonce ciphertext aad. some ciphertext;
}

abbrev decode : Text → Option EncryptionMetadata
decode [] = none
decode (n ∷ bytes) = some (record {
  algorithm = algorithm;
  key_version = 1;
  nonce = slice_to n bytes;
  aad = slice_from n bytes;
})

abbrev counted : Codecs
counted = record {
  encode_base64 = λ bytes. bytes;
  decode_base64 = λ bytes. some bytes;
  marshal = λ m. some (length m.nonce ∷ (m.nonce ++ m.aad));
  unmarshal = decode;
}

counted-IsFaithful : IsFaithful counted
counted-IsFaithful = record {
  base64 = λ bytes. refl;
  json = λ nonce aad. (
    length nonce ∷ (nonce ++ aad),
    refl,
    rw (slice_to-append nonce aad (length nonce) refl)
        (rw (slice_from-append nonce aad (length nonce) refl) refl),
  );
}

abbrev zeros : Text
zeros = 0 ∷ 0 ∷ 0 ∷ 0 ∷ 0 ∷ 0 ∷ 0 ∷ 0 ∷ 0 ∷ 0 ∷ 0 ∷ 0 ∷ []

abbrev a_nonce : Filled nonce_size
a_nonce = record { bytes = zeros; filled = refl }

abbrev a_key : Filled key_size
a_key = record { bytes = zeros ++ zeros ++ 1 ∷ 2 ∷ 3 ∷ 4 ∷ 5 ∷ 6 ∷ 7 ∷ 8 ∷ []; filled = refl }

abbrev local_kms : LocalKmsProvider
local_kms = record { kek = a_key.bytes; key_name = codes "dev"; key_version = 1 }

abbrev draws : LocalDraws
draws = record { dek = some a_key; nonce = some a_nonce }

abbrev provider : KmsProvider
provider = local_provider plain (λ n. n ∷ [])

generated : generate_local plain draws local_kms ≡ ok (a_key.bytes, zeros ++ a_key.bytes)
unfolding generate_local wrap_dek
generated = refl

local_provider-Unwraps_example :
    unwrap_local plain (zeros ++ a_key.bytes) local_kms ≡ ok a_key.bytes
local_provider-Unwraps_example =
    local_provider-Unwraps plain (λ key nonce plaintext aad. refl) (λ n. n ∷ []) draws local_kms
      a_key.bytes (zeros ++ a_key.bytes) generated

decrypt_message-encrypt_message_example :
    (sealed : EncryptedData) × (encrypt_message plain counted provider draws
        (some a_nonce)
        (codes "hi")
        (codes "id")
        local_kms
      ≡ ok sealed)
    × (decrypt_message plain counted provider sealed (codes "id") local_kms
        ≡ returns (ok (codes "hi")))
decrypt_message-encrypt_message_example =
    decrypt_message-encrypt_message plain counted provider draws a_nonce (codes "hi") (codes "id")
      a_key.bytes (zeros ++ a_key.bytes) local_kms (λ key nonce plaintext aad. refl)
      counted-IsFaithful
      (local_provider-Unwraps plain (λ key nonce plaintext aad. refl) (λ n. n ∷ [])) generated refl

-- The metadata says that the nonce is empty.
abbrev forged : EncryptedData
forged = record {
  ciphertext = codes "hi";
  wrapped_dek = zeros ++ a_key.bytes;
  key_id = codes "dev:v1";
  algorithm = algorithm;
  additional_metadata = ("metadata", 0 ∷ []) ∷ [];
}

decrypt_message-panics_iff_example :
    (decrypt_message plain counted provider forged (codes "id") local_kms ≡ panics)
    ↔ HasOddNonce plain counted provider forged local_kms
decrypt_message-panics_iff_example =
    decrypt_message-panics_iff plain counted provider forged (codes "id") local_kms

forged_panics : decrypt_message plain counted provider forged (codes "id") local_kms ≡ panics
unfolding decrypt_message opening slice_to slice_from unwrap_local lookup
forged_panics = refl
