-- ===== src/Kafka/Options/Laws.antt =====
-- What any options leave of the defaults.
use go_utilities.Base.{
  ◌≡◌, ◌≢◌, refl, true, false, [], Option, none, some, ◌==◌, Bool-cases, inl, inr,
}
use go_utilities.Base.Int.{ℤ}
use go_utilities.Base.Text.{Text, text_eq, text_beq_iff}
use go_utilities.Kafka.Sarama.{SaramaConfig, Sarama}
use go_utilities.Kafka.Options.{
  is_positive, ConsumerOptions, text_or, positive_or, consumer_options, base_consumer_config,
}

abbrev pub Positive : ℤ → Type 0
Positive z = is_positive z ≡ true

-- A configuration that a consumer can run with.
pub record IsRunnable (c : SaramaConfig) : Type 0 where
  pub named : c.client_id ≢ []
  pub commits : Positive c.auto_commit_interval
  pub waits : Positive c.max_wait_time
  pub session : Positive c.session_timeout
  pub beats : Positive c.heartbeat_interval
  pub rebalances : Positive c.rebalance_timeout
  pub retries : Positive c.rebalance_retry_max
  pub backs_off : Positive c.rebalance_retry_backoff

positive_or-Positive : (given d : ℤ) → Positive d → Positive (positive_or given d)
positive_or-Positive given d h = elim (Bool-cases (is_positive given)) [
  | inl yes' ↦ rw yes' yes'
  | inr no' ↦ rw no' h
]

text_or-ne-nil : (given d : Text) → d ≢ [] → text_or given d ≢ []
text_or-ne-nil given d h = elim (Bool-cases (given == [])) [
  | inl e ↦ rw e h
  | inr n ↦ rw n (λ e. false-ne-true n ((text_beq_iff given []).1 e))
]
  where
    false-ne-true : {b : _} → b ≡ false → b ≡ true → ⊥
    false-ne-true p q = cc

module _ (x : Sarama) where
  -- Whatever options are given, negative and zero durations included, the consumer's configuration
  -- has a client id and no duration and no number of retries that is not positive.
  pub base_consumer_config-IsRunnable :
      (opts : Option ConsumerOptions) → IsRunnable (base_consumer_config x opts)
  unfolding base_consumer_config consumer_options
  base_consumer_config-IsRunnable none = record {
    named = λ e. cc;
    commits = refl;
    waits = refl;
    session = refl;
    beats = refl;
    rebalances = refl;
    retries = refl;
    backs_off = refl;
  }
  base_consumer_config-IsRunnable (some o) = record {
    named = text_or-ne-nil o.client_id _ (λ e. cc);
    commits = positive_or-Positive o.auto_commit_interval _ refl;
    waits = positive_or-Positive o.max_wait_time _ refl;
    session = positive_or-Positive o.session_timeout _ refl;
    beats = positive_or-Positive o.heartbeat_interval _ refl;
    rebalances = positive_or-Positive o.rebalance_timeout _ refl;
    retries = positive_or-Positive o.rebalance_retry_max _ refl;
    backs_off = positive_or-Positive o.rebalance_retry_backoff _ refl;
  }
