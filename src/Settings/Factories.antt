-- ===== src/Settings/Factories.antt =====
-- crypto/factory/factory.go, storage/factory/factory.go, and pubsub/PubSub.go with pubsub/Config.go,
-- pubsub/Mock.go and the names of channels in pubsub/Redis.go. The adapters are parameters.
pub mod Chosen
use go_utilities.Base.{
  ℕ, Bool, true, false, List, [], ◌∷◌, ◌++◌, Option, none, some, if◌then◌else◌, ◌==◌,
}
use go_utilities.Base.Result.{Result, ok, err, ◌>>=◌, wrap_error, or_fail}
use go_utilities.Base.Run.{Run, returns, panics}
use go_utilities.Base.Text.{Text, codes, text_eq}
use go_utilities.Otel.Config.{Environment}
use go_utilities.Settings.Configs.{
  LocalKeyConfig, VaultConfig, MinioConfig, S3Config, load_crypto_config, load_local_config,
  load_vault_config, load_minio_config, load_s3_config, get_storage_type,
}

pub data FactoryError : Type 0 where
  adapter_failed not_implemented invalid_config_type missing_redis_config encode_failed :
      FactoryError
  unknown_type : Text → FactoryError
  provider_failed : FactoryError → FactoryError

-- The adapters, with `none` for an error; `new_service` never fails.
pub record CryptoAdapters : Type 1 where
  pub KmsProvider : Type 0
  pub Service : Type 0
  pub new_local : LocalKeyConfig → Option KmsProvider
  pub new_vault : VaultConfig → Option KmsProvider
  pub new_service : Option KmsProvider → Service

-- The `interface{}` of a configuration.
pub data AnyConfig : Type 0 where
  local_config : LocalKeyConfig → AnyConfig
  vault_config : VaultConfig → AnyConfig
  other_config : AnyConfig

abbrev pub as_local : AnyConfig → Option LocalKeyConfig
as_local (local_config c) = some c
as_local (vault_config c) = none
as_local other_config = none

abbrev pub as_vault : AnyConfig → Option VaultConfig
as_vault (vault_config c) = some c
as_vault (local_config c) = none
as_vault other_config = none

module _ (x : CryptoAdapters) where
  open x use {KmsProvider, Service, new_local, new_vault, new_service}

  unfoldable pub new_kms_provider : Environment → Text → Result FactoryError KmsProvider
  new_kms_provider env kind =
      if kind == codes "local"
      then or_fail adapter_failed (new_local (load_local_config env))
      else if kind == codes "vault"
      then or_fail adapter_failed (new_vault (load_vault_config env))
      else if kind == codes "aws"
      then err not_implemented
      else err (unknown_type kind)

  unfoldable pub new_kms_provider_with_config : Text → AnyConfig → Result FactoryError KmsProvider
  new_kms_provider_with_config kind cfg =
      if kind == codes "local"
      then (or_fail invalid_config_type (as_local cfg) >>= λ c.
          or_fail adapter_failed (new_local c))
      else if kind == codes "vault"
      then (or_fail invalid_config_type (as_vault cfg) >>= λ c.
          or_fail adapter_failed (new_vault c))
      else if kind == codes "aws"
      then err not_implemented
      else err (unknown_type kind)

  abbrev pub service_over : Result FactoryError KmsProvider → Result FactoryError Service
  service_over r = wrap_error provider_failed r >>= λ p. ok (new_service (some p))

  unfoldable pub new_encryption_service_with_provider :
      Environment → Text → Result FactoryError Service
  unfolding new_kms_provider
  new_encryption_service_with_provider env kind = service_over (new_kms_provider env kind)

  unfoldable pub new_encryption_service : Environment → Result FactoryError Service
  unfolding load_crypto_config new_encryption_service_with_provider
  new_encryption_service env =
      new_encryption_service_with_provider env (load_crypto_config env).provider

  unfoldable pub new_encryption_service_with_config : Text → AnyConfig → Result FactoryError Service
  unfolding new_kms_provider_with_config
  new_encryption_service_with_config kind cfg = service_over (new_kms_provider_with_config kind cfg)

  -- The body of the `Once` of `GetGlobalService`; the error of the fallback is dropped.
  unfoldable pub first_service : Environment → Service
  unfolding new_encryption_service
  first_service env = elim (new_encryption_service env) [
    | ok s ↦ s
    | err e ↦ new_service (new_local (record { key_name = codes "kgb-fallback-kek" }))
  ]

pub record StorageAdapters : Type 1 where
  pub Storage : Type 0
  pub new_minio : MinioConfig → Option Storage
  pub new_s3 : S3Config → Option Storage

module _ (x : StorageAdapters) (env : Environment) where
  unfoldable pub new_storage_service_with_type : Text → Result FactoryError x.Storage
  new_storage_service_with_type kind =
      if kind == codes "minio"
      then or_fail adapter_failed (x.new_minio (load_minio_config env))
      else if kind == codes "s3"
      then or_fail adapter_failed (x.new_s3 (load_s3_config env))
      else err (unknown_type kind)

  unfoldable pub new_storage_service : Result FactoryError x.Storage
  unfolding get_storage_type new_storage_service_with_type
  new_storage_service = new_storage_service_with_type (get_storage_type env)

pub record RedisConfig : Type 0 where
  pub url : Text
  pub password : Text

-- `Config` of pubsub without the brokers that no code reads.
pub record PubSubConfig : Type 0 where
  pub kind : Text
  pub enabled : Bool
  pub namespace : Text
  pub enable_telemetry : Bool
  pub redis : Option RedisConfig

pub record RedisLibrary : Type 1 where
  pub Client : Type 0
  pub new_client : RedisConfig → Client
  pub ping_ok : Client → Bool
  pub tracing_ok : Client → Bool
  pub metrics_ok : Client → Bool

pub data PubSubClient (C : Type 0) : Type 0 where
  noop : PubSubClient C
  redis_client : C → Text → PubSubClient C

module _ (x : RedisLibrary) where
  abbrev pub instrument : Bool → x.Client → Result FactoryError x.Client
  instrument false c = ok c
  instrument true c =
      if x.tracing_ok c
      then (if x.metrics_ok c then ok c else err adapter_failed)
      else err adapter_failed

  -- `NewRedisPubSub`, which reads the Redis configuration without a test for nil.
  unfoldable pub new_redis_pub_sub :
      PubSubConfig → Run (Result FactoryError (PubSubClient x.Client))
  new_redis_pub_sub cfg =
      if cfg.enabled
      then (elim cfg.redis [
        | none ↦ panics
        | some r ↦
            let c = x.new_client r in
            returns (
              if x.ping_ok c
              then (instrument cfg.enable_telemetry c >>= λ ready.
                  ok (redis_client ready cfg.namespace))
              else err adapter_failed)
      ])
      else returns (ok noop)

  abbrev pub when_configured :
      Option RedisConfig
      → Run (Result FactoryError (PubSubClient x.Client))
      → Run (Result FactoryError (PubSubClient x.Client))
  when_configured none next = returns (err missing_redis_config)
  when_configured (some r) next = next

  unfoldable pub new_pub_sub : PubSubConfig → Run (Result FactoryError (PubSubClient x.Client))
  unfolding new_redis_pub_sub
  new_pub_sub cfg =
      if cfg.enabled
      then (if cfg.kind == codes "redis"
          then when_configured cfg.redis (new_redis_pub_sub cfg)
          else if cfg.kind == codes "none"
          then returns (ok noop)
          else returns (err (unknown_type cfg.kind)))
      else returns (ok noop)

-- The name of a channel in a namespace.
unfoldable pub prefixed : Text → Text → Text
prefixed namespace channel = if namespace == [] then channel else namespace ++ b':' ∷ channel

-- `Publish`: what is sent to Redis, and whether it fails; a client that does nothing never does.
unfoldable pub publish :
    {C V S : Type 0}
    → (V → Option Text)
    → (C → Text → Text → S → S × Option FactoryError)
    → PubSubClient C
    → Text
    → V
    → S
    → S × Option FactoryError
unfolding prefixed
publish marshal send noop channel message s = (s, none)
publish marshal send (redis_client c namespace) channel message s = elim (marshal message) [
  | none ↦ (s, some encode_failed)
  | some bytes ↦ send c (prefixed namespace channel) bytes s
]
