-- ===== src/Kafka/Sarama.antt =====
-- What the package uses of the sarama library: the part of its configuration that the code sets or
-- that its validation reads, its constants, and the construction of clients.
use go_utilities.Base.{ℕ, Bool, List}
use go_utilities.Base.Int.{ℤ}
use go_utilities.Base.Result.{Result}
use go_utilities.Base.Text.{Text}
use go_utilities.Server.Errors.{GoError}

-- Durations are in nanoseconds.
abbrev pub millisecond : ℕ
millisecond = 1_000_000

abbrev pub second : ℕ
second = 1_000_000_000

-- `sarama.Config`, its nested fields written in a row.
pub record SaramaConfig : Type 0 where
  pub client_id : Text
  pub version : ℕ
  pub tls_enable : Bool
  pub sasl_enable : Bool
  pub sasl_user : Text
  pub sasl_password : Text
  pub max_open_requests : ℤ
  pub consumer_return_errors : Bool
  pub auto_commit_enable : Bool
  pub auto_commit_interval : ℤ
  pub max_wait_time : ℤ
  pub initial_offset : ℤ
  pub session_timeout : ℤ
  pub heartbeat_interval : ℤ
  pub rebalance_timeout : ℤ
  pub rebalance_retry_max : ℤ
  pub rebalance_retry_backoff : ℤ
  pub required_acks : ℤ
  pub return_successes : Bool
  pub return_errors : Bool
  pub retry_max : ℤ
  pub retry_backoff : ℤ
  pub compression : ℤ
  pub idempotent : Bool
  pub max_message_bytes : ℤ
  pub flush_frequency : ℤ
  pub flush_messages : ℤ
  pub flush_bytes : ℤ

pub record Sarama : Type 1 where
  pub SyncProducer : Type 0
  pub ConsumerGroup : Type 0
  pub new_config : SaramaConfig
  pub v1_1_0_0 : ℕ
  pub offset_oldest : ℤ
  pub compression_snappy : ℤ
  pub wait_for_all : ℤ
  pub new_sync_producer : List Text → SaramaConfig → Result GoError SyncProducer
  pub new_consumer_group : List Text → Text → SaramaConfig → Result GoError ConsumerGroup
