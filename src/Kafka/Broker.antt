-- ===== src/Kafka/Broker.antt =====
-- kafka/Config.go and kafka/Broker.go, and the constructors of kafka/Producer.go and
-- kafka/Consumer.go.
pub mod Laws
pub mod Refused
use go_utilities.Base.{ℕ, Bool, [], ◌++◌, List, Option, none, some, if◌then◌else◌, ◌==◌}
use go_utilities.Base.Result.{Result, ok, err, ◌>>=◌, or_fail, wrap_error}
use go_utilities.Base.Run.{Run, returns, panics}
use go_utilities.Base.Text.{Text, codes, text_eq, split}
use go_utilities.Server.Errors.{GoError, plain, wrapped, internal_type, new_error}
use go_utilities.Kafka.Sarama.{SaramaConfig, Sarama}
use go_utilities.Kafka.Options.{
  ConsumerOptions, ProducerOptions, base_consumer_config, base_producer_config, with_credentials,
}

pub record AwsConfig : Type 0 where
  pub broker_sasl : Text
  pub username : Text
  pub password : Text
  pub topic : Text
  pub group_id : Text

pub record LocalConfig : Type 0 where
  pub broker_sasl : Text
  pub topic : Text
  pub group_id : Text

-- A value of the interface `BrokerProviderConfig`: nil, or a pointer, which may be nil, to one of
-- the two configurations.
pub data ProviderConfig : Type 0 where
  no_config : ProviderConfig
  aws_config : Option AwsConfig → ProviderConfig
  local_config : Option LocalConfig → ProviderConfig

pub record BrokerOptions : Type 0 where
  pub producer : Option ProducerOptions
  pub consumer : Option ConsumerOptions

pub record BrokerConfig : Type 0 where
  pub provider : Text
  pub config : ProviderConfig
  pub options : Option BrokerOptions

abbrev pub aws : Text
aws = codes "aws"

abbrev pub local : Text
local = codes "local"

-- `getBrokerAddresses`
abbrev pub broker_addresses : Text → List Text
broker_addresses s = split b',' s

-- `cfg.Config.(*AWSConfig)` and `cfg.Config.(*LocalConfig)`, which panic on another type.
abbrev pub assert_aws : ProviderConfig → Run (Option AwsConfig)
assert_aws (aws_config c) = returns c
assert_aws (local_config c) = panics
assert_aws no_config = panics

abbrev pub assert_local : ProviderConfig → Run (Option LocalConfig)
assert_local (local_config c) = returns c
assert_local (aws_config c) = panics
assert_local no_config = panics

abbrev pub map_run {ℓ κ} : {A : Type ℓ} {B : Type κ} → (A → B) → Run A → Run B
map_run f (returns a) = returns (f a)
map_run f panics = panics

-- The reading of a configuration: encoding/json, `none` for an error.
pub record RawBrokerConfig : Type 0 where
  pub provider : Text
  pub config : Text
  pub options : Option BrokerOptions

pub record Json : Type 0 where
  pub unmarshal_raw : Text → Result GoError RawBrokerConfig
  pub unmarshal_aws : Text → Result GoError AwsConfig
  pub unmarshal_local : Text → Result GoError LocalConfig

module _ (j : Json) where
  open j use {unmarshal_raw, unmarshal_aws, unmarshal_local}

  -- What the switch on the provider makes of the configuration.
  abbrev pub read_provider : RawBrokerConfig → Result GoError ProviderConfig
  read_provider raw =
      if raw.provider == aws
      then wrap_error (wrapped (codes "failed to unmarshal aws config"))
          (unmarshal_aws raw.config >>= λ c. ok (aws_config (some c)))
      else if raw.provider == local
      then wrap_error (wrapped (codes "failed to unmarshal local config"))
          (unmarshal_local raw.config >>= λ c. ok (local_config (some c)))
      else err (plain (codes "unsupported broker provider: " ++ raw.provider))

  -- The provider and the options are set before the configuration is read.
  abbrev pub finish_read :
      BrokerConfig
      → RawBrokerConfig
      → Result GoError ProviderConfig
      → BrokerConfig × Result GoError (Unit {0})
  finish_read b raw (err e) = (record b { provider = raw.provider; options = raw.options }, err e)
  finish_read b raw (ok c) =
      (record b { provider = raw.provider; options = raw.options; config = c }, ok tt)

  unfoldable pub unmarshal_json : Text → BrokerConfig → BrokerConfig × Result GoError (Unit {0})
  unmarshal_json bytes b = elim (unmarshal_raw bytes) [
    | err e ↦ (b, err (wrapped (codes "failed to unmarshal broker config wrapper") e))
    | ok raw ↦ finish_read b raw (read_provider raw)
  ]

-- A producer or a consumer: the sarama client and, of a producer, its topic. The copy of the
-- configuration that each keeps is never read and left out.
pub record Producer (x : Sarama) : Type 0 where
  pub producer : x.SyncProducer
  pub topic : Text

pub record Consumer (x : Sarama) : Type 0 where
  pub consumer_group : x.ConsumerGroup

-- `at` is the place in the code that `NewError` records.
module _ (x : Sarama) (at : Text) where
  open x use {new_sync_producer, new_consumer_group}

  abbrev pub internal_error : Text → Option GoError → GoError
  internal_error message e = new_error at internal_type message e

  abbrev pub producer_of : Text → Text → SaramaConfig → Text → Result GoError (Producer x)
  producer_of sasl topic config failure =
      wrap_error (λ e. internal_error failure (some e))
        (new_sync_producer (broker_addresses sasl) config)
      >>= λ p. ok (record { producer = p; topic = topic })

  unfoldable pub new_aws_producer :
      Option AwsConfig → Option ProducerOptions → Result GoError (Producer x)
  new_aws_producer none opts = err (internal_error (codes "aws config is required") none)
  new_aws_producer (some cfg) opts =
      producer_of cfg.broker_sasl cfg.topic
        (with_credentials cfg.username cfg.password (base_producer_config x opts))
        (codes "failed to create aws producer")

  unfoldable pub new_local_producer :
      Option LocalConfig → Option ProducerOptions → Result GoError (Producer x)
  new_local_producer none opts = err (internal_error (codes "local config is required") none)
  new_local_producer (some cfg) opts =
      producer_of cfg.broker_sasl cfg.topic (base_producer_config x opts)
        (codes "failed to create local producer")

  abbrev pub group_or_default : Text → Text
  group_or_default group_id = if group_id == [] then codes "default-group" else group_id

  abbrev pub consumer_of : Text → Text → SaramaConfig → Text → Result GoError (Consumer x)
  consumer_of sasl group_id config failure =
      wrap_error (λ e. internal_error failure (some e))
        (new_consumer_group (broker_addresses sasl) (group_or_default group_id) config)
      >>= λ g. ok (record { consumer_group = g })

  unfoldable pub new_aws_consumer :
      Option AwsConfig → Option ConsumerOptions → Result GoError (Consumer x)
  new_aws_consumer none opts = err (internal_error (codes "aws config is required") none)
  new_aws_consumer (some cfg) opts =
      consumer_of cfg.broker_sasl cfg.group_id
        (with_credentials cfg.username cfg.password (base_consumer_config x opts))
        (codes "failed to create aws consumer")

  unfoldable pub new_local_consumer :
      Option LocalConfig → Option ConsumerOptions → Result GoError (Consumer x)
  new_local_consumer none opts = err (internal_error (codes "local config is required") none)
  new_local_consumer (some cfg) opts =
      consumer_of cfg.broker_sasl cfg.group_id (base_consumer_config x opts)
        (codes "failed to create local consumer")

  abbrev pub unsupported : Text → GoError
  unsupported provider = internal_error (codes "unsupported broker provider: " ++ provider) none

  unfoldable pub new_producer :
      BrokerConfig → Option ProducerOptions → Run (Result GoError (Producer x))
  new_producer cfg opts =
      if cfg.provider == local
      then map_run (λ c. new_local_producer c opts) (assert_local cfg.config)
      else if cfg.provider == aws
      then map_run (λ c. new_aws_producer c opts) (assert_aws cfg.config)
      else returns (err (unsupported cfg.provider))

  unfoldable pub new_consumer :
      BrokerConfig → Option ConsumerOptions → Run (Result GoError (Consumer x))
  new_consumer cfg opts =
      if cfg.provider == local
      then map_run (λ c. new_local_consumer c opts) (assert_local cfg.config)
      else if cfg.provider == aws
      then map_run (λ c. new_aws_consumer c opts) (assert_aws cfg.config)
      else returns (err (unsupported cfg.provider))
