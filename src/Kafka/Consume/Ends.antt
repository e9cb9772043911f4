-- ===== src/Kafka/Consume/Ends.antt =====
-- When the loop of `Start` ends.
use go_utilities.Base.{
  ℕ, zero, suc, ◌+◌, ◌≤◌, ◌<◌, ◌≡◌, refl, ◌∙◌, subst, none, some, arith, Option-cases, Bool-cases,
  ltb, inl, inr,
}
use go_utilities.Server.Errors.{GoError}
use go_utilities.Kafka.Consume.{ConsumeRound, outcome, start_consumer}

-- The round ends the loop with an error: that of `Consume` or, where `Consume` has none, that of the
-- context.
pub data Breaks (r : ConsumeRound) (e : GoError) : Type 0 where
  consume_failed : r.consumed ≡ some e → Breaks r e
  context_done : r.consumed ≡ none → r.context ≡ some e → Breaks r e

-- The round lets the loop go on: `Consume` has no error and the context is not done.
pub record Passes (r : ConsumeRound) : Type 0 where
  pub consumed : r.consumed ≡ none
  pub context : r.context ≡ none

outcome-Breaks : (r : ConsumeRound) (e : GoError) → Breaks r e → outcome r ≡ some e
outcome-Breaks r e (consume_failed h) = rw h refl
outcome-Breaks r e (context_done h i) = rw h i

Breaks-outcome : (r : ConsumeRound) (e : GoError) → outcome r ≡ some e → Breaks r e
Breaks-outcome r e h = elim (Option-cases r.consumed) [
  | inl absent ↦ context_done absent (rw absent at h)
  | inr (f, failed) ↦ consume_failed (failed ∙ rw failed at h)
]

Passes-outcome : (r : ConsumeRound) → outcome r ≡ none → Passes r
Passes-outcome r h = elim (Option-cases r.consumed) [
  | inl absent ↦ record { consumed = absent; context = rw absent at h }
  | inr (f, failed) ↦ absurd (apart (rw failed at h))
]
  where
    apart : {f : GoError} → some f ≡ none → ⊥
    apart i = cc

-- The round `j`, from `i` on, is the first one that ends the loop, and `e` is its error.
pub record Ends (rounds : ℕ → ConsumeRound) (i j : ℕ) (e : GoError) : Type 0 where
  pub from : i ≤ j
  pub ended : Breaks (rounds j) e
  pub before : (m : ℕ) → i ≤ m → m < j → Passes (rounds m)

Ends-suc :
    (rounds : ℕ → ConsumeRound) (i j : ℕ) (e : GoError)
    → Passes (rounds i)
    → Ends rounds (i + 1) j e
    → Ends rounds i j e
Ends-suc rounds i j e h r = record {
  from = omega (arith, r.from);
  ended = r.ended;
  before = λ m low high. elim (Bool-cases (ltb i m)) [
    | inl lt ↦ r.before m (ground arith) high
    | inr eq ↦ subst (λ m'. Passes (rounds m')) (ground arith) h
  ];
}

-- Of the rounds from `i` to `n`, one is the first that ends the loop, within `k + 1` rounds.
abbrev pub Found : ℕ → ℕ → ℕ → (ℕ → ConsumeRound) → Type 0
Found k i n rounds =
    (j : ℕ) × (f : GoError) × (j ≤ n)
    × Ends rounds i j f
    × (start_consumer (suc k) rounds i ≡ some f)

here :
    (k i n : ℕ) (rounds : ℕ → ConsumeRound) (f : GoError)
    → i ≤ n
    → outcome (rounds i) ≡ some f
    → Found k i n rounds
unfolding start_consumer
here k i n rounds f low h = (
  i,
  f,
  low,
  record {
    from = omega arith;
    ended = Breaks-outcome (rounds i) f h;
    before = λ m a b. absurd (omega arith);
  },
  rw (h, start_consumer) refl,
)

runs-Ends :
    (k i n : ℕ) (rounds : ℕ → ConsumeRound) (e : GoError)
    → n ≡ i + k
    → outcome (rounds n) ≡ some e
    → Found k i n rounds
unfolding start_consumer
runs-Ends zero i n rounds e at h =
    here zero i n rounds e (omega arith) (subst (λ m. outcome (rounds m) ≡ some e) (omega arith) h)
runs-Ends (suc k) i n rounds e at h = elim (Option-cases (outcome (rounds i))) [
  | inr (f, ends) ↦ here (suc k) i n rounds f (omega arith) ends
  | inl goes_on ↦
      let (j, f, low, ends, runs) = runs-Ends k (i + 1) n rounds e (omega arith) h in
      (
        j,
        f,
        low,
        Ends-suc rounds i j f (Passes-outcome (rounds i) goes_on) ends,
        rw (goes_on, start_consumer) runs,
      )
]

-- If in some round `Consume` fails or, without that, the context is done, `Start` returns within the
-- rounds up to it: with the error of the first such round, which is that of `Consume` where it fails
-- and that of the context otherwise; in every round before, `Consume` had no error and the context
-- was not done.
pub start_consumer-Ends :
    (k i n : ℕ) (rounds : ℕ → ConsumeRound) (e : GoError)
    → n ≡ i + k
    → Breaks (rounds n) e
    → Found k i n rounds
start_consumer-Ends k i n rounds e at h =
    runs-Ends k i n rounds e at (outcome-Breaks (rounds n) e h)
