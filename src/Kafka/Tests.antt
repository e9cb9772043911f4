-- ===== src/Kafka/Tests.antt =====
-- Runs, and the theorems at concrete inputs: a library that takes what `Validate` lets through.
use go_utilities.Base.{
  ℕ, suc, ◌≡◌, refl, Bool, true, false, ◌&&◌, [], ◌∷◌, Option, none, some, arith, if◌then◌else◌,
  ◌==◌, nat_eq, Bool-cases, inl, inr,
}
use go_utilities.Base.Int.{ℤ, pos, negsuc}
use go_utilities.Base.Result.{Result, ok, err}
use go_utilities.Base.Text.{codes, text_eq}
use go_utilities.Server.Errors.{GoError, plain}
use go_utilities.Kafka.Sarama.{SaramaConfig, Sarama}
use go_utilities.Kafka.Options.{producer_options}
use go_utilities.Kafka.Broker.{
  AwsConfig, BrokerConfig, no_config, aws_config, Json, aws, unmarshal_json, new_aws_producer,
}
use go_utilities.Kafka.Broker.Laws.{Constructs, unmarshal_json-Constructs}
use go_utilities.Kafka.Broker.Refused.{Fails, Validates, new_aws_producer-Fails}
use go_utilities.Kafka.Consume.{consume_claim, ConsumeRound}
use go_utilities.Kafka.Consume.Laws.{handle_all, errors_of, consume_claim_lem}
use go_utilities.Kafka.Consume.Ends.{Found, context_done, start_consumer-Ends}

abbrev fresh : SaramaConfig
fresh = record {
  client_id = codes "sarama";
  version = 0;
  tls_enable = false;
  sasl_enable = false;
  sasl_user = [];
  sasl_password = [];
  max_open_requests = pos 5;
  consumer_return_errors = false;
  auto_commit_enable = true;
  auto_commit_interval = pos 1;
  max_wait_time = pos 1;
  initial_offset = negsuc 0;
  session_timeout = pos 1;
  heartbeat_interval = pos 1;
  rebalance_timeout = pos 1;
  rebalance_retry_max = pos 1;
  rebalance_retry_backoff = pos 1;
  required_acks = pos 1;
  return_successes = false;
  return_errors = true;
  retry_max = pos 3;
  retry_backoff = pos 1;
  compression = pos 0;
  idempotent = false;
  max_message_bytes = pos 1;
  flush_frequency = pos 0;
  flush_messages = pos 0;
  flush_bytes = pos 0;
}

abbrev refusal : GoError
refusal = plain (codes "invalid configuration")

-- The two rules of `Validate`.
abbrev user_missing : SaramaConfig → Bool
user_missing c = c.sasl_enable && c.sasl_user == []

abbrev is_five : ℤ → Bool
is_five (pos n) = n == 5
is_five (negsuc n) = false

abbrev checked : SaramaConfig → Result GoError ℕ
checked c = if user_missing c then err refusal else ok 1

abbrev checked_producer : SaramaConfig → Result GoError ℕ
checked_producer c = if c.idempotent && is_five c.max_open_requests then err refusal else checked c

abbrev library : Sarama
library = record {
  SyncProducer = ℕ;
  ConsumerGroup = ℕ;
  new_config = fresh;
  v1_1_0_0 = 11;
  offset_oldest = negsuc 1;
  compression_snappy = pos 2;
  wait_for_all = negsuc 0;
  new_sync_producer = λ brokers c. checked_producer c;
  new_consumer_group = λ brokers group c. checked c;
}

checked_producer-Fails :
    (c : SaramaConfig) → c.sasl_enable ≡ true → c.sasl_user ≡ [] → Fails (checked_producer c)
checked_producer-Fails c enabled user =
    elim (Bool-cases (c.idempotent && is_five c.max_open_requests)) [
      | inl h ↦ (refusal, rw h refl)
      | inr h ↦ (refusal, rw h (rw enabled (rw user refl)))
    ]

library-Validates : Validates library
library-Validates = record {
  no_user = refl;
  requests = refl;
  producer_user = λ brokers c enabled user. checked_producer-Fails c enabled user;
  consumer_user = λ brokers group c enabled user. (refusal, rw enabled (rw user refl));
  one_request = λ brokers c idem five. (refusal, rw idem (rw five refl));
}

abbrev aws_broker : AwsConfig
aws_broker = record {
  broker_sasl = codes "kafka:9093";
  username = codes "u";
  password = codes "p";
  topic = codes "t";
  group_id = [];
}

new_aws_producer-Fails_example :
    Fails (new_aws_producer library (codes "a.go:1") (some aws_broker) none)
unfolding producer_options
new_aws_producer-Fails_example =
    new_aws_producer-Fails library (codes "a.go:1") library-Validates aws_broker none refl

-- Every text is read as the configuration of an AWS broker.
abbrev any_json : Json
any_json = record {
  unmarshal_raw = λ t. ok (record { provider = aws; config = t; options = none });
  unmarshal_aws = λ t. ok aws_broker;
  unmarshal_local = λ t. err refusal;
}

abbrev unread : BrokerConfig
unread = record { provider = []; config = no_config; options = none }

abbrev was_read : BrokerConfig
was_read = record { provider = aws; config = aws_config (some aws_broker); options = none }

unmarshal_json-Constructs_example : Constructs library (codes "a.go:1") was_read none none
unfolding unmarshal_json
unmarshal_json-Constructs_example =
    unmarshal_json-Constructs library (codes "a.go:1") any_json (codes "{}") unread was_read none
      none refl

-- A handler that fails on 2, and counts.
abbrev handler : ℕ → ℕ → ℕ × Option GoError
handler m s = (suc s, if m == 2 then some refusal else none)

consume_claim_lem_example : consume_claim handler (1 ∷ 2 ∷ 3 ∷ []) 0 ≡ record {
  state = handle_all handler (1 ∷ 2 ∷ 3 ∷ []) 0;
  marked = 1 ∷ 2 ∷ 3 ∷ [];
  printed = errors_of handler (1 ∷ 2 ∷ 3 ∷ []) 0;
}
consume_claim_lem_example = consume_claim_lem handler (1 ∷ 2 ∷ 3 ∷ []) 0

failed_is_marked :
    consume_claim handler (1 ∷ 2 ∷ 3 ∷ []) 0
    ≡ record { state = 3; marked = 1 ∷ 2 ∷ 3 ∷ []; printed = refusal ∷ [] }
unfolding consume_claim
failed_is_marked = refl

-- The third round finds the context done.
abbrev rounds : ℕ → ConsumeRound
rounds i = record { consumed = none; context = if i == 2 then some refusal else none }

start_consumer-Ends_example : Found 2 0 2 rounds
start_consumer-Ends_example =
    start_consumer-Ends 2 0 2 rounds refusal (omega arith) (context_done refl refl)
