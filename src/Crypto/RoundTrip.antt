-- ===== src/Crypto/RoundTrip.antt =====
-- What has been encrypted is decrypted, through any provider that unwraps what it has wrapped; and
-- the local provider does.
use go_utilities.Base.{
  ℕ, zero, suc, ◌≡◌, refl, ◌∙◌, sym, ap, subst, true, false, [], ◌∷◌, ◌++◌, Option, some, arith,
  ltb, length, length-append, ◌==◌, nat_eq, Bool-cases, ◌⊎◌, inl, inr, Option-cases,
}
use go_utilities.Base.Dict.{lookup}
use go_utilities.Base.Run.{returns}
use go_utilities.Base.Text.{Text}
use go_utilities.Crypto.Cipher.{
  Error, Result, ok, err, Filled, nonce_size, is_key, Gcm, Opens, KmsProvider, Unwraps,
}
use go_utilities.Crypto.Service.{
  algorithm, EncryptedData, Codecs, metadata_of, encrypt_message, opening, decrypt_message,
}
use go_utilities.Crypto.Local.{
  LocalKmsProvider, slice_to, slice_from, wrap_dek, unwrap_local, generate_local, local_provider,
}

pub slice_to-append : (xs ys : Text) (n : ℕ) → length xs ≡ n → slice_to n (xs ++ ys) ≡ xs
unfolding slice_to
slice_to-append [] ys zero h = refl
slice_to-append [] ys (suc n) h = absurd (omega (arith, h))
slice_to-append (x ∷ xs) ys zero h = absurd (omega (arith, h))
slice_to-append (x ∷ xs) ys (suc n) h = ap (◌∷◌ x) (slice_to-append xs ys n (omega (arith, h)))

pub slice_from-append : (xs ys : Text) (n : ℕ) → length xs ≡ n → slice_from n (xs ++ ys) ≡ ys
unfolding slice_from
slice_from-append [] ys zero h = refl
slice_from-append [] ys (suc n) h = absurd (omega (arith, h))
slice_from-append (x ∷ xs) ys zero h = absurd (omega (arith, h))
slice_from-append (x ∷ xs) ys (suc n) h = slice_from-append xs ys n (omega (arith, h))

err-ne-ok {ℓ} : {A : Type ℓ} {e : Error} {a : A} → err e ≡ ok a → ⊥
err-ne-ok h = cc

result {ℓ} : {A : Type ℓ} {a b : A} → ok a ≡ ok b → a ≡ b
result h = cc

pub Result-cases {ℓ} :
    {A : Type ℓ} (r : Result A) → ((e : Error) × (r ≡ err e)) ⊎ ((a : A) × (r ≡ ok a))
Result-cases (err e) = inl (e, refl)
Result-cases (ok a) = inr (a, refl)

module _ (g : Gcm) (opens : Opens g) where
  unwrap_local-seal :
      (nonce : Filled nonce_size) (dek : Text) (p : LocalKmsProvider)
      → is_key p.kek ≡ true
      → unwrap_local g (nonce.bytes ++ g.seal p.kek nonce.bytes dek []) p ≡ ok dek
  unfolding unwrap_local
  unwrap_local-seal nonce dek p h = rw h (
      rw long (
        rw (slice_to-append nonce.bytes sealed nonce_size nonce.filled) (
          rw (slice_from-append nonce.bytes sealed nonce_size nonce.filled)
            (rw (opens p.kek nonce.bytes dek []) refl))))
    where
      sealed : Text
      sealed = g.seal p.kek nonce.bytes dek []

      long : ltb (length (nonce.bytes ++ sealed)) nonce_size ≡ false
      long = ground (arith, length-append nonce.bytes sealed, nonce.filled)

  unwrap_local-wrap_dek :
      (drawn : Option (Filled nonce_size)) (dek wrapped : Text) (p : LocalKmsProvider)
      → wrap_dek g drawn dek p ≡ ok wrapped
      → unwrap_local g wrapped p ≡ ok dek
  unfolding wrap_dek
  unwrap_local-wrap_dek drawn dek wrapped p h = elim (Bool-cases (is_key p.kek)) [
    | inr bad ↦ absurd (err-ne-ok (rw bad at h))
    | inl good ↦ elim (Option-cases drawn) [
      | inl none' ↦ absurd (err-ne-ok (rw (good, none') at h))
      | inr (nonce, e) ↦
          subst (λ w. unwrap_local g w p ≡ ok dek) (result (rw (good, e) at h))
            (unwrap_local-seal nonce dek p good)
    ]
  ]

  -- Where AES-GCM opens what it has sealed, the local provider unwraps every key that it has
  -- generated to what it was.
  pub local_provider-Unwraps : (decimal : ℕ → Text) → Unwraps (local_provider g decimal)
  unfolding generate_local
  local_provider-Unwraps decimal draws p dek wrapped h = elim (Option-cases draws.dek) [
    | inl none' ↦ absurd (err-ne-ok (rw none' at h))
    | inr (key, e) ↦ elim (Result-cases (wrap_dek g draws.nonce key.bytes p)) [
      | inl (f, failed) ↦ absurd (err-ne-ok (rw (e, failed) at h))
      | inr (w, done) ↦
          ap (λ v. unwrap_local g v p) (sym (ap (λ r. r.1) (result (rw (e, done) at h))))
          ∙ unwrap_local-wrap_dek draws.nonce key.bytes w p done
          ∙ ap ok (ap (λ r. r.0) (result (rw (e, done) at h)))
    ]
  ]

-- The metadata that the service writes is read as it was, and so is base64.
pub record IsFaithful (c : Codecs) : Type 0 where
  pub base64 : (bytes : Text) → c.decode_base64 (c.encode_base64 bytes) ≡ some bytes
  pub json :
      (nonce aad : Text)
      → (text : Text) × (c.marshal (metadata_of c nonce aad) ≡ some text)
        × (c.unmarshal text ≡ some (metadata_of c nonce aad))

module _ (g : Gcm) (c : Codecs) (k : KmsProvider) where
  -- Let AES-GCM open what it has sealed, let base64 and JSON read back what they wrote, and let the
  -- provider unwrap what it has wrapped. If the provider generates a key of a size of AES and a
  -- nonce can be drawn, then a message is encrypted, and what is encrypted is decrypted, under the
  -- same associated data, to the message, without a panic.
  pub decrypt_message-encrypt_message :
      (draws : k.Draws) (nonce : Filled nonce_size) (plaintext associated dek wrapped : Text)
      (s : k.State)
      → Opens g
      → IsFaithful c
      → Unwraps k
      → k.generate_dek draws s ≡ ok (dek, wrapped)
      → is_key dek ≡ true
      → (sealed : EncryptedData) × (encrypt_message g c k draws (some nonce) plaintext associated s
          ≡ ok sealed)
        × (decrypt_message g c k sealed associated s ≡ returns (ok plaintext))
  unfolding encrypt_message decrypt_message opening lookup
  decrypt_message-encrypt_message draws nonce plaintext associated dek wrapped s opens codecs
        unwraps generated good =
      let (text, written, read) = codecs.json nonce.bytes associated in
      (
        sealed text,
        rw generated (rw good (rw written refl)),
        rw (unwraps draws s dek wrapped generated) (
            rw read (
              rw (codecs.base64 nonce.bytes)
                (rw good (rw sized (rw (opens dek nonce.bytes plaintext associated) refl))))),
      )
    where
      sealed : Text → EncryptedData
      sealed text = record {
        ciphertext = g.seal dek nonce.bytes plaintext associated;
        wrapped_dek = wrapped;
        key_id = k.get_key_id s;
        algorithm = algorithm;
        additional_metadata = ("metadata", text) ∷ [];
      }

      sized : (length nonce.bytes == nonce_size) ≡ true
      sized = ground (arith, nonce.filled)
