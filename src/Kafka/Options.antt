-- ===== src/Kafka/Options.antt =====
-- `BaseConsumerConfig` of kafka/Consumer.go and `BaseProducerConfig` of kafka/Producer.go.
pub mod Laws
use go_utilities.Base.{
  ℕ, ◌*◌, Bool, true, false, [], Option, none, some, ltb, if◌then◌else◌, ◌==◌, nat_eq,
}
use go_utilities.Base.Int.{ℤ, pos, negsuc}
use go_utilities.Base.Text.{Text, codes, text_eq}
use go_utilities.Kafka.Sarama.{millisecond, second, SaramaConfig, Sarama}

-- `z > 0` and `z != 0`
abbrev pub is_positive : ℤ → Bool
is_positive (pos n) = ltb 0 n
is_positive (negsuc n) = false

abbrev pub is_zero : ℤ → Bool
is_zero (pos n) = n == 0
is_zero (negsuc n) = false

pub record ConsumerOptions : Type 0 where
  pub client_id : Text
  pub auto_commit_interval : ℤ
  pub max_wait_time : ℤ
  pub initial_offset : ℤ
  pub session_timeout : ℤ
  pub heartbeat_interval : ℤ
  pub rebalance_timeout : ℤ
  pub rebalance_retry_max : ℤ
  pub rebalance_retry_backoff : ℤ

pub record ProducerOptions : Type 0 where
  pub include_flush_configs : Bool
  pub compression : ℤ
  pub enable_idempotence : Bool
  pub client_id : Text
  pub max_message_bytes : ℤ

-- The overrides: an option that is given, or the default.
abbrev pub text_or : Text → Text → Text
text_or given default = if given == [] then default else given

abbrev pub positive_or : ℤ → ℤ → ℤ
positive_or given default = if is_positive given then given else default

abbrev pub nonzero_or : ℤ → ℤ → ℤ
nonzero_or given default = if is_zero given then default else given

module _ (x : Sarama) where
  open x use {new_config, v1_1_0_0, offset_oldest, compression_snappy, wait_for_all}

  abbrev pub default_consumer_options : ConsumerOptions
  default_consumer_options = record {
    client_id = codes "default-consumer";
    auto_commit_interval = pos (250 * millisecond);
    max_wait_time = pos (500 * millisecond);
    initial_offset = offset_oldest;
    session_timeout = pos (10 * second);
    heartbeat_interval = pos (3 * second);
    rebalance_timeout = pos (60 * second);
    rebalance_retry_max = pos 4;
    rebalance_retry_backoff = pos (2 * second);
  }

  abbrev pub override_consumer : ConsumerOptions → ConsumerOptions → ConsumerOptions
  override_consumer opts d = record {
    client_id = text_or opts.client_id d.client_id;
    auto_commit_interval = positive_or opts.auto_commit_interval d.auto_commit_interval;
    max_wait_time = positive_or opts.max_wait_time d.max_wait_time;
    initial_offset = nonzero_or opts.initial_offset d.initial_offset;
    session_timeout = positive_or opts.session_timeout d.session_timeout;
    heartbeat_interval = positive_or opts.heartbeat_interval d.heartbeat_interval;
    rebalance_timeout = positive_or opts.rebalance_timeout d.rebalance_timeout;
    rebalance_retry_max = positive_or opts.rebalance_retry_max d.rebalance_retry_max;
    rebalance_retry_backoff = positive_or opts.rebalance_retry_backoff d.rebalance_retry_backoff;
  }

  unfoldable pub consumer_options : Option ConsumerOptions → ConsumerOptions
  consumer_options none = default_consumer_options
  consumer_options (some opts) = override_consumer opts default_consumer_options

  unfoldable pub base_consumer_config : Option ConsumerOptions → SaramaConfig
  base_consumer_config opts =
      let o : ConsumerOptions = consumer_options opts in
      record new_config {
        version = v1_1_0_0;
        tls_enable = true;
        sasl_enable = true;
        consumer_return_errors = true;
        client_id = o.client_id;
        auto_commit_enable = true;
        auto_commit_interval = o.auto_commit_interval;
        max_wait_time = o.max_wait_time;
        initial_offset = o.initial_offset;
        session_timeout = o.session_timeout;
        heartbeat_interval = o.heartbeat_interval;
        rebalance_timeout = o.rebalance_timeout;
        rebalance_retry_max = o.rebalance_retry_max;
        rebalance_retry_backoff = o.rebalance_retry_backoff;
      }

  abbrev pub default_producer_options : ProducerOptions
  default_producer_options = record {
    include_flush_configs = true;
    compression = compression_snappy;
    enable_idempotence = true;
    client_id = codes "default-producer";
    max_message_bytes = pos 1_000_000;
  }

  -- The Booleans are taken as they are given.
  abbrev pub override_producer : ProducerOptions → ProducerOptions → ProducerOptions
  override_producer opts d = record {
    include_flush_configs = opts.include_flush_configs;
    compression = nonzero_or opts.compression d.compression;
    enable_idempotence = opts.enable_idempotence;
    client_id = text_or opts.client_id d.client_id;
    max_message_bytes = nonzero_or opts.max_message_bytes d.max_message_bytes;
  }

  unfoldable pub producer_options : Option ProducerOptions → ProducerOptions
  producer_options none = default_producer_options
  producer_options (some opts) = override_producer opts default_producer_options

  abbrev pub with_flush : Bool → SaramaConfig → SaramaConfig
  with_flush false c = c
  with_flush true c = record c {
    flush_frequency = pos (100 * millisecond);
    flush_messages = pos 500;
    flush_bytes = pos 1_048_576;
  }

  unfoldable pub base_producer_config : Option ProducerOptions → SaramaConfig
  base_producer_config opts =
      let o : ProducerOptions = producer_options opts in
      with_flush o.include_flush_configs (record new_config {
        version = v1_1_0_0;
        tls_enable = true;
        sasl_enable = true;
        required_acks = wait_for_all;
        return_successes = true;
        return_errors = true;
        retry_max = pos 10;
        retry_backoff = pos (200 * millisecond);
        client_id = o.client_id;
        compression = o.compression;
        idempotent = o.enable_idempotence;
        max_message_bytes = o.max_message_bytes;
      })

-- `NewAWSConsumerConfig` and `NewAWSProducerConfig`: the credentials on top of the base.
abbrev pub with_credentials : Text → Text → SaramaConfig → SaramaConfig
with_credentials username password c = record c { sasl_user = username; sasl_password = password }
