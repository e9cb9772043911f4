-- ===== src/Settings/Factories/Chosen.antt =====
-- Which adapter a factory gives.
use go_utilities.Base.{
  ◌≡◌, ◌≢◌, refl, ap, ◌↔◌, ◌⊎◌, inl, inr, Option, none, some, ◌==◌, Bool-cases, Option-cases,
}
use go_utilities.Base.Result.{Result, ok, or_fail, err-ne-ok, ok_inj}
use go_utilities.Base.Run.{Run, returns, panics}
use go_utilities.Base.Text.{Text, codes, text_eq, text_beq_iff}
use go_utilities.Otel.Config.{Environment}
use go_utilities.Settings.Configs.{load_local_config, load_vault_config}
use go_utilities.Settings.Factories.{
  FactoryError, adapter_failed, CryptoAdapters, new_kms_provider, RedisLibrary, PubSubConfig,
  PubSubClient, new_pub_sub,
}

or_fail_iff :
    {A : Type 0} (e : FactoryError) (o : Option A) (a : A) → (or_fail e o ≡ ok a) ↔ (o ≡ some a)
or_fail_iff e none a = (λ h. absurd (err-ne-ok h), λ h. absurd (none-ne h))
  where
    none-ne : none ≡ some a → ⊥
    none-ne h = cc
or_fail_iff e (some b) a = (λ h. ap some (ok_inj h), λ h. ap (or_fail e) h)

module _ (x : CryptoAdapters) where
  abbrev pub IsChosen : Environment → Text → x.KmsProvider → Type 0
  IsChosen env kind p =
      ((kind ≡ codes "local") × (x.new_local (load_local_config env) ≡ some p))
      ⊎ ((kind ≡ codes "vault") × (x.new_vault (load_vault_config env) ≡ some p))

  -- A key provider is made exactly when the type is local or vault, and the adapter of that type is
  -- made with its configuration from the environment.
  pub new_kms_provider_iff :
      (env : Environment) (kind : Text) (p : x.KmsProvider)
      → (new_kms_provider x env kind ≡ ok p) ↔ IsChosen env kind p
  unfolding new_kms_provider
  new_kms_provider_iff env kind p = (chosen, made)
    where
      made : IsChosen env kind p → new_kms_provider x env kind ≡ ok p
      made (inl (local, n)) = rw local ((or_fail_iff adapter_failed _ p).1 n)
      made (inr (vault, n)) = rw vault ((or_fail_iff adapter_failed _ p).1 n)

      chosen : new_kms_provider x env kind ≡ ok p → IsChosen env kind p
      chosen h = elim (Bool-cases (kind == codes "local")) [
        | inl l ↦ inl (
          (text_beq_iff kind (codes "local")).0 l,
          (or_fail_iff adapter_failed _ p).0 (rw l at h),
        )
        | inr l ↦ elim (Bool-cases (kind == codes "vault")) [
          | inl v ↦ inr (
            (text_beq_iff kind (codes "vault")).0 v,
            (or_fail_iff adapter_failed _ p).0 (rw (l, v) at h),
          )
          | inr v ↦ elim (Bool-cases (kind == codes "aws")) [
            | inl a ↦ absurd (err-ne-ok (rw (l, v, a) at h))
            | inr a ↦ absurd (err-ne-ok (rw (l, v, a) at h))
          ]
        ]
      ]

returns-ne-panics : {A : Type 0} {a : A} → returns a ≡ panics → ⊥
returns-ne-panics h = cc

-- Code that does not panic returns.
not_panics : {A : Type 0} (m : Run A) → m ≢ panics → (r : A) × (m ≡ returns r)
not_panics panics n = absurd (n refl)
not_panics (returns a) n = (a, refl)

module _ (x : RedisLibrary) where
  new_pub_sub-ne_panics : (cfg : PubSubConfig) → new_pub_sub x cfg ≢ panics
  unfolding new_pub_sub
  new_pub_sub-ne_panics cfg h = elim (Bool-cases cfg.enabled) [
    | inr off ↦ returns-ne-panics (rw off at h)
    | inl on ↦ elim (Bool-cases (cfg.kind == codes "redis")) [
      | inr other ↦ elim (Bool-cases (cfg.kind == codes "none")) [
        | inl idle ↦ returns-ne-panics (rw (on, other, idle) at h)
        | inr unknown ↦ returns-ne-panics (rw (on, other, unknown) at h)
      ]
      | inl redis ↦ elim (Option-cases cfg.redis) [
        | inl absent ↦ returns-ne-panics (rw (on, redis, absent) at h)
        | inr (r, given) ↦ returns-ne-panics (rw (on, redis, given) at h)
      ]
    ]
  ]

  -- NewPubSub returns, for every configuration: the Redis configuration is read only where it is
  -- there.
  pub new_pub_sub-returns :
      (cfg : PubSubConfig)
      → (r : Result FactoryError (PubSubClient x.Client)) × (new_pub_sub x cfg ≡ returns r)
  unfolding new_pub_sub
  new_pub_sub-returns cfg = not_panics (new_pub_sub x cfg) (new_pub_sub-ne_panics cfg)
