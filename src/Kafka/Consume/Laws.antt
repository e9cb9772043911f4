-- ===== src/Kafka/Consume/Laws.antt =====
-- Sending one message, and handling those of a claim.
use go_utilities.Base.{inl, inr, ◌↔◌, ◌≡◌, refl, sym, subst, ap, List, [], ◌∷◌, Option, some}
use go_utilities.Base.Int.{pos}
use go_utilities.Base.Result.{Result, ok, err, Result-cases, err-ne-ok, ok_inj, err_inj}
use go_utilities.Base.Text.{Text}
use go_utilities.Server.Errors.{
  GoError, new_error, internal_server_error, respond, to_api_error, to_http_status_code,
  to_http_message,
}
use go_utilities.Kafka.Consume.{
  ProducerMessage, generate_kafka_message, send_message, after_delivery, note, consume_claim,
}

module _ {M S : Type 0} (handler : M → S → S × Option GoError) where
  -- The handler, run on each message in turn.
  abbrev pub handle_all : List M → S → S
  handle_all [] s = s
  handle_all (m ∷ ms) s = handle_all ms (handler m s).0

  -- The errors that it gives, in order.
  abbrev pub errors_of : List M → S → List GoError
  errors_of [] s = []
  errors_of (m ∷ ms) s = note handler (handler m s).1 (errors_of ms (handler m s).0)

  -- A claim hands each message to the handler, in order and once, prints the errors, and marks
  -- every message, whether or not its handler failed.
  pub consume_claim_lem :
      (ms : List M) (s : S)
      → consume_claim handler ms s
        ≡ record { state = handle_all ms s; marked = ms; printed = errors_of ms s }
  unfolding consume_claim
  consume_claim_lem [] s = refl
  consume_claim_lem (m ∷ ms) s = rw (consume_claim_lem ms (handler m s).0) refl

module _ {V S : Type 0} (at : Text) (marshal : V → Result GoError Text)
    (deliver : ProducerMessage → S → S × Result GoError (Unit {0})) where
  -- The payload was encoded, and the brokers took it for the topic.
  abbrev pub Delivered : Text → V → S → S → Type 0
  Delivered topic payload s t =
      (bytes : Text) × (marshal payload ≡ ok bytes)
      × (deliver (record { topic = topic; value = bytes }) s ≡ (t, ok tt))

  -- `SendMessage` gives no error exactly when the payload could be encoded and the brokers took it
  -- for the topic, and leaves them as they then are.
  pub send_message_iff :
      (topic : Text) (payload : V) (s t : S)
      → (send_message at marshal deliver topic payload s ≡ (t, ok tt)) ↔ Delivered topic payload s t
  unfolding send_message generate_kafka_message
  send_message_iff topic payload s t = elim (Result-cases (marshal payload)) [
    | inl (e, m) ↦
        rw (m, send_message)
          (λ h. absurd (err-ne-ok (ap (λ p. p.1) h)), λ (bytes, h, _). absurd (err-ne-ok h))
    | inr (bytes, m) ↦
        rw (m, send_message)
          (
            λ h. (bytes, refl, taken (deliver (record { topic = topic; value = bytes }) s) h),
            λ (given, h, d). ap (after_delivery at marshal deliver) (
                subst (λ b. deliver (record { topic = topic; value = b }) s ≡ (t, ok tt))
                  (sym (ok_inj h)) d),
          )
  ]
    where
      taken :
          (r : S × Result GoError (Unit {0}))
          → after_delivery at marshal deliver r ≡ (t, ok tt)
          → r ≡ (t, ok tt)
      taken (u, ok done) h = h
      taken (u, err e) h = absurd (err-ne-ok (ap (λ p. p.1) h))

  -- An error of `SendMessage` is told to a client of the server as "Internal server error" with the
  -- status 500, whatever it wraps.
  pub send_message-respond :
      (topic : Text) (payload : V) (s t : S) (e : GoError) (trace : Text)
      → send_message at marshal deliver topic payload s ≡ (t, err e)
      → respond trace (some e) ≡ (pos 500, internal_server_error)
  unfolding send_message generate_kafka_message respond to_api_error new_error to_http_status_code
      to_http_message
  send_message-respond topic payload s t e trace h = elim (Result-cases (marshal payload)) [
    | inl (f, m) ↦ rw (← err_inj (ap (λ p. p.1) (rw (m, send_message) at h))) refl
    | inr (bytes, m) ↦
        told (deliver (record { topic = topic; value = bytes }) s) (rw (m, send_message) at h)
  ]
    where
      told :
          (r : S × Result GoError (Unit {0}))
          → after_delivery at marshal deliver r ≡ (t, err e)
          → respond trace (some e) ≡ (pos 500, internal_server_error)
      told (u, ok done) h = absurd (err-ne-ok (sym (ap (λ p. p.1) h)))
      told (u, err f) h = rw (← err_inj (ap (λ p. p.1) h)) refl
