-- ===== src/Crypto/Panics.antt =====
-- When `DecryptMessage` panics: the nonce that it hands to `gcm.Open` comes from the data.
use go_utilities.Base.{
  ◌≡◌, ◌≢◌, ◌↔◌, true, some, arith, length, ◌==◌, nat_eq, Bool-cases, Option-cases, inl, inr,
}
use go_utilities.Base.Dict.{lookup}
use go_utilities.Base.Run.{returns, panics}
use go_utilities.Base.Text.{Text}
use go_utilities.Crypto.Cipher.{ok, nonce_size, is_key, Gcm, KmsProvider}
use go_utilities.Crypto.Service.{
  EncryptionMetadata, EncryptedData, Codecs, opening, decrypt_message,
}
use go_utilities.Crypto.RoundTrip.{Result-cases}

returns-ne-panics {ℓ} : {A : Type ℓ} {a : A} → returns a ≡ panics → ⊥
returns-ne-panics h = cc

sized : (nonce : Text) → length nonce ≡ nonce_size → (length nonce == nonce_size) ≡ true
sized nonce h = ground (arith, h)

module _ (g : Gcm) (c : Codecs) (k : KmsProvider) where
  -- The data is as it is made, but for the size of the nonce.
  pub record HasOddNonce (sealed : EncryptedData) (s : k.State) : Type 0 where
    pub dek : Text
    pub unwrapped : k.unwrap_dek sealed.wrapped_dek s ≡ ok dek
    pub text : Text
    pub present : lookup "metadata" sealed.additional_metadata ≡ some text
    pub metadata : EncryptionMetadata
    pub read : c.unmarshal text ≡ some metadata
    pub nonce : Text
    pub decoded : c.decode_base64 metadata.nonce ≡ some nonce
    pub is_aes : is_key dek ≡ true
    pub odd : length nonce ≢ nonce_size

  -- `DecryptMessage` panics exactly when the provider unwraps the data's key to one of a size of
  -- AES, the data has metadata that can be read, and the nonce in it decodes to another size than
  -- 12 bytes.
  pub decrypt_message-panics_iff :
      (sealed : EncryptedData) (associated : Text) (s : k.State)
      → (decrypt_message g c k sealed associated s ≡ panics) ↔ HasOddNonce sealed s
  unfolding decrypt_message opening
  decrypt_message-panics_iff sealed associated s = (odd, blown)
    where
      blown : HasOddNonce sealed s → decrypt_message g c k sealed associated s ≡ panics
      blown o = rw (o.unwrapped, o.present, o.read, o.decoded, o.is_aes) (ground (arith, o.odd))

      odd : decrypt_message g c k sealed associated s ≡ panics → HasOddNonce sealed s
      odd h = elim (Result-cases (k.unwrap_dek sealed.wrapped_dek s)) [
        | inl (e, f) ↦ absurd (returns-ne-panics (rw f at h))
        | inr (dek, u) ↦ elim (Option-cases (lookup "metadata" sealed.additional_metadata)) [
          | inl l ↦ absurd (returns-ne-panics (rw (u, l) at h))
          | inr (text, l) ↦ elim (Option-cases (c.unmarshal text)) [
            | inl m ↦ absurd (returns-ne-panics (rw (u, l, m) at h))
            | inr (metadata, m) ↦ elim (Option-cases (c.decode_base64 metadata.nonce)) [
              | inl n ↦ absurd (returns-ne-panics (rw (u, l, m, n) at h))
              | inr (nonce, n) ↦ elim (Bool-cases (is_key dek)) [
                | inr b ↦ absurd (returns-ne-panics (rw (u, l, m, n, b) at h))
                | inl b ↦ record {
                  dek = dek;
                  unwrapped = u;
                  text = text;
                  present = l;
                  metadata = metadata;
                  read = m;
                  nonce = nonce;
                  decoded = n;
                  is_aes = b;
                  odd = λ size. returns-ne-panics (rw (u, l, m, n, b, sized nonce size) at h);
                }
              ]
            ]
          ]
        ]
      ]
