-- ===== src/Kafka/Consume.antt =====
-- kafka/Common.go, and `BaseConsumer.Start` of kafka/Consumer.go.
pub mod Laws
pub mod Ends
use go_utilities.Base.{ℕ, zero, suc, ◌+◌, Bool, List, [], ◌∷◌, Option, none, some}
use go_utilities.Base.Result.{Result, ok, err, ◌>>=◌, wrap_error}
use go_utilities.Base.Text.{Text, codes}
use go_utilities.Server.Errors.{GoError, internal_type, new_error}

-- `sarama.ProducerMessage`, as far as it is set.
pub record ProducerMessage : Type 0 where
  pub topic : Text
  pub value : Text

-- A topic's queue. `marshal` is `json.Marshal`; `deliver` is the `SendMessage` of the sarama
-- producer, over the state `S` of the brokers.
module _ {V S : Type 0} (at : Text) (marshal : V → Result GoError Text)
    (deliver : ProducerMessage → S → S × Result GoError (Unit {0})) where
  unfoldable pub generate_kafka_message : Text → V → Result GoError ProducerMessage
  generate_kafka_message topic payload =
      wrap_error (λ e. new_error at internal_type (codes "failed to marshal message") (some e))
        (marshal payload)
      >>= λ bytes. ok (record { topic = topic; value = bytes })

  abbrev pub after_delivery : S × Result GoError (Unit {0}) → S × Result GoError (Unit {0})
  after_delivery (s, r) =
      (s, wrap_error (λ e. new_error at internal_type (codes "failed to send message") (some e)) r)

  unfoldable pub send_message : Text → V → S → S × Result GoError (Unit {0})
  unfolding generate_kafka_message
  send_message topic payload s = elim (generate_kafka_message topic payload) [
    | err e ↦
        (s, err (new_error at internal_type (codes "failed to generate Kafka message") (some e)))
    | ok message ↦ after_delivery (deliver message s)
  ]

-- The session of a claim: the state of the handler, the messages that are marked, in order, and
-- the errors that are printed.
pub record Session (M S : Type 0) : Type 0 where
  pub state : S
  pub marked : List M
  pub printed : List GoError

module _ {M S : Type 0} (handler : M → S → S × Option GoError) where
  abbrev pub note : Option GoError → List GoError → List GoError
  note none es = es
  note (some e) es = e ∷ es

  -- `ConsumeClaim`: the messages of the claim until its channel is closed. It always returns nil.
  unfoldable pub consume_claim : List M → S → Session M S
  consume_claim [] s = record { state = s; marked = []; printed = [] }
  consume_claim (m ∷ ms) s =
      let rest : Session M S = consume_claim ms (handler m s).0 in
      record {
        state = rest.state;
        marked = m ∷ rest.marked;
        printed = note (handler m s).1 rest.printed;
      }

-- One round of the loop of `Start`: what `Consume` returns, and what `ctx.Err()` is after it.
pub record ConsumeRound : Type 0 where
  pub consumed : Option GoError
  pub context : Option GoError

-- The round ends the loop with this error, or goes on.
abbrev pub outcome : ConsumeRound → Option GoError
outcome r = elim r.consumed [ some e ↦ some e | none ↦ r.context ]

-- `Start`, over the rounds from the `i`-th on; `none` if the fuel runs out.
unfoldable pub start_consumer : ℕ → (ℕ → ConsumeRound) → ℕ → Option GoError
start_consumer zero rounds i = none
start_consumer (suc fuel) rounds i = elim (outcome (rounds i)) [
  | some e ↦ some e
  | none ↦ start_consumer fuel rounds (i + 1)
]
