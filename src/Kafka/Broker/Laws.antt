-- ===== src/Kafka/Broker/Laws.antt =====
-- A configuration that has been read, and the constructors that take it.
use go_utilities.Base.{
  ◌≡◌, refl, sym, ap, subst, true, false, Option, none, some, ◌==◌, Bool-cases, inl, inr,
}
use go_utilities.Base.Result.{Result, ok, Result-cases, err-ne-ok, ok_inj}
use go_utilities.Base.Run.{returns}
use go_utilities.Base.Text.{Text, text_eq, text_beq_iff}
use go_utilities.Server.Errors.{GoError}
use go_utilities.Kafka.Sarama.{Sarama}
use go_utilities.Kafka.Options.{ConsumerOptions, ProducerOptions}
use go_utilities.Kafka.Broker.{
  ProviderConfig, no_config, aws_config, local_config, BrokerConfig, RawBrokerConfig, Json, aws,
  local, read_provider, unmarshal_json, Producer, Consumer, new_producer, new_consumer,
  new_local_producer, new_local_consumer, new_aws_producer, new_aws_consumer,
}

-- The configuration is one of the kind that the provider names, and not nil.
abbrev pub Fits : Text → ProviderConfig → Type 0
Fits t no_config = ⊥
Fits t (aws_config none) = ⊥
Fits t (aws_config (some c)) = ((t == local) ≡ false) × ((t == aws) ≡ true)
Fits t (local_config none) = ⊥
Fits t (local_config (some c)) = (t == local) ≡ true

aws-ne-local : (t : Text) → (t == aws) ≡ true → (t == local) ≡ false
aws-ne-local t h = subst (λ (u : Text). (u == local) ≡ false) (sym ((text_beq_iff t aws).0 h)) refl

module _ (j : Json) where
  open j use {unmarshal_raw, unmarshal_aws, unmarshal_local}

  read_provider-Fits :
      (raw : RawBrokerConfig) (c : ProviderConfig)
      → read_provider j raw ≡ ok c
      → Fits raw.provider c
  read_provider-Fits raw c h = elim (Bool-cases (raw.provider == aws)) [
    | inl a ↦ elim (Result-cases (unmarshal_aws raw.config)) [
      | inl (e, r) ↦ absurd (err-ne-ok (rw (a, r) at h))
      | inr (got, r) ↦
          subst (Fits raw.provider) (ok_inj (rw (a, r) at h)) (aws-ne-local raw.provider a, a)
    ]
    | inr n ↦ elim (Bool-cases (raw.provider == local)) [
      | inr m ↦ absurd (err-ne-ok (rw (n, m) at h))
      | inl l ↦ elim (Result-cases (unmarshal_local raw.config)) [
        | inl (e, r) ↦ absurd (err-ne-ok (rw (n, l, r) at h))
        | inr (got, r) ↦ subst (Fits raw.provider) (ok_inj (rw (n, l, r) at h)) l
      ]
    ]
  ]

  unmarshal_json-Fits :
      (bytes : Text) (b c : BrokerConfig)
      → unmarshal_json j bytes b ≡ (c, ok tt)
      → Fits c.provider c.config
  unfolding unmarshal_json
  unmarshal_json-Fits bytes b c h = elim (Result-cases (unmarshal_raw bytes)) [
    | inl (e, r) ↦ absurd (err-ne-ok (ap (λ p. p.1) (rw (r, unmarshal_json) at h)))
    | inr (raw, r) ↦ elim (Result-cases (read_provider j raw)) [
      | inl (e, q) ↦ absurd (err-ne-ok (ap (λ p. p.1) (rw (r, unmarshal_json, q) at h)))
      | inr (got, q) ↦
          subst (λ (d : BrokerConfig). Fits d.provider d.config)
            (ap (λ p. p.0) (rw (r, unmarshal_json, q) at h)) (read_provider-Fits raw got q)
    ]
  ]

module _ (x : Sarama) (at : Text) where
  -- The constructors return, without a panic.
  abbrev pub Constructs : BrokerConfig → Option ProducerOptions → Option ConsumerOptions → Type 0
  Constructs cfg po co =
      ((p : Result GoError (Producer x)) × (new_producer x at cfg po ≡ returns p))
      × ((g : Result GoError (Consumer x)) × (new_consumer x at cfg co ≡ returns g))

  Fits-Constructs :
      (cfg : BrokerConfig) (po : Option ProducerOptions) (co : Option ConsumerOptions)
      → Fits cfg.provider cfg.config
      → Constructs cfg po co
  unfolding new_producer new_consumer
  Fits-Constructs cfg po co f = go cfg.config refl f
    where
      go : (c : ProviderConfig) → cfg.config ≡ c → Fits cfg.provider c → Constructs cfg po co
      go no_config e f = absurd f
      go (aws_config none) e f = absurd f
      go (aws_config (some c)) e (l, a) = (
        (new_aws_producer x at (some c) po, rw (l, a, e, new_producer) refl),
        (new_aws_consumer x at (some c) co, rw (l, a, e, new_consumer) refl),
      )
      go (local_config none) e f = absurd f
      go (local_config (some c)) e l = (
        (new_local_producer x at (some c) po, rw (l, e, new_producer) refl),
        (new_local_consumer x at (some c) co, rw (l, e, new_consumer) refl),
      )

  -- Once a configuration has been read without an error, whatever it was before, the producer and
  -- the consumer are constructed from it without a panic: the type of the configuration is the one
  -- that the provider's name asserts.
  pub unmarshal_json-Constructs :
      (j : Json) (bytes : Text) (b c : BrokerConfig) (po : Option ProducerOptions)
      (co : Option ConsumerOptions)
      → unmarshal_json j bytes b ≡ (c, ok tt)
      → Constructs c po co
  unmarshal_json-Constructs j bytes b c po co h =
      Fits-Constructs c po co (unmarshal_json-Fits j bytes b c h)
