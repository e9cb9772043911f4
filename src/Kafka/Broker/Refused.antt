-- ===== src/Kafka/Broker/Refused.antt =====
-- What sarama's validation makes of the configurations.
use go_utilities.Base.{◌≡◌, refl, ◌∙◌, Bool, true, false, List, [], Option, some}
use go_utilities.Base.Int.{pos}
use go_utilities.Base.Result.{Result, err, ◌>>=◌, wrap_error}
use go_utilities.Base.Text.{Text, text_eq}
use go_utilities.Server.Errors.{GoError}
use go_utilities.Kafka.Sarama.{SaramaConfig, Sarama}
use go_utilities.Kafka.Options.{
  ConsumerOptions, ProducerOptions, producer_options, base_consumer_config, base_producer_config,
  with_flush,
}
use go_utilities.Kafka.Broker.{
  AwsConfig, LocalConfig, new_local_producer, new_local_consumer, new_aws_producer,
}

abbrev pub Fails {ℓ} : {A : Type ℓ} → Result GoError A → Type ℓ
Fails {A} r = (e : GoError) × (r ≡ err e)

-- What `sarama.Config.Validate` documents: with SASL (of the mechanism PLAIN, which stands where
-- none is set) the user may not be empty, and an idempotent producer may have one open request at
-- most. A new configuration has no user, and 5 open requests.
pub record Validates (x : Sarama) : Type 0 where
  pub no_user : x.new_config.sasl_user ≡ []
  pub requests : x.new_config.max_open_requests ≡ pos 5
  pub producer_user :
      (brokers : List Text) (c : SaramaConfig)
      → c.sasl_enable ≡ true
      → c.sasl_user ≡ []
      → Fails (x.new_sync_producer brokers c)
  pub consumer_user :
      (brokers : List Text) (group : Text) (c : SaramaConfig)
      → c.sasl_enable ≡ true
      → c.sasl_user ≡ []
      → Fails (x.new_consumer_group brokers group c)
  pub one_request :
      (brokers : List Text) (c : SaramaConfig)
      → c.idempotent ≡ true
      → c.max_open_requests ≡ pos 5
      → Fails (x.new_sync_producer brokers c)

module _ (x : Sarama) where
  -- The fields that the validation reads.
  abbrev SameChecked : SaramaConfig → SaramaConfig → Type 0
  SameChecked c d =
      (c.sasl_enable ≡ d.sasl_enable)
      × (c.sasl_user ≡ d.sasl_user)
      × (c.idempotent ≡ d.idempotent)
      × (c.max_open_requests ≡ d.max_open_requests)

  with_flush-SameChecked : (b : Bool) (c : SaramaConfig) → SameChecked (with_flush x b c) c
  with_flush-SameChecked false c = (refl, refl, refl, refl)
  with_flush-SameChecked true c = (refl, refl, refl, refl)

  producer_checked :
      (opts : Option ProducerOptions)
      → ((base_producer_config x opts).sasl_enable ≡ true)
        × ((base_producer_config x opts).sasl_user ≡ x.new_config.sasl_user)
        × ((base_producer_config x opts).idempotent ≡ (producer_options x opts).enable_idempotence)
        × ((base_producer_config x opts).max_open_requests ≡ x.new_config.max_open_requests)
  unfolding base_producer_config
  producer_checked opts = with_flush-SameChecked (producer_options x opts).include_flush_configs _

module _ (x : Sarama) (at : Text) (v : Validates x) where
  Fails-wrap {ℓ κ} :
      {A : Type ℓ} {B : Type κ} (r : Result GoError A) (f : GoError → GoError)
      (g : A → Result GoError B)
      → Fails r
      → Fails (wrap_error f r >>= g)
  Fails-wrap r f g (e, h) = (f e, rw h refl)

  -- Where sarama validates as documented: for a broker of the provider "local", whatever the
  -- options, neither a producer nor a consumer can be constructed; both constructors return an
  -- error, since SASL is enabled and no user is set.
  pub local-Fails :
      (cfg : LocalConfig) (po : Option ProducerOptions) (co : Option ConsumerOptions)
      → Fails (new_local_producer x at (some cfg) po)
        × Fails (new_local_consumer x at (some cfg) co)
  unfolding new_local_producer new_local_consumer base_consumer_config
  local-Fails cfg po co =
      let (enabled, user, _, _) = producer_checked x po in
      (
        Fails-wrap _ _ _ (v.producer_user _ _ enabled (user ∙ v.no_user)),
        Fails-wrap _ _ _ (v.consumer_user _ _ _ refl v.no_user),
      )

  -- Where sarama validates as documented, a producer for the provider "aws" cannot be constructed
  -- unless the options turn idempotence off; with no options at all it cannot.
  pub new_aws_producer-Fails :
      (cfg : AwsConfig) (opts : Option ProducerOptions)
      → (producer_options x opts).enable_idempotence ≡ true
      → Fails (new_aws_producer x at (some cfg) opts)
  unfolding new_aws_producer
  new_aws_producer-Fails cfg opts h =
      let (_, _, idem, open') = producer_checked x opts in
      Fails-wrap _ _ _ (v.one_request _ _ (idem ∙ h) (open' ∙ v.requests))
