-- ===== src/Counter.antt =====
-- counter/Counter.go. The 64-bit floats are a parameter: a type with the operations that the code
-- uses. The worker's channel is the order in which its events are handled. A pipeline of Redis is
-- the list of its commands, and what Redis makes of it is an argument of each flush: whether
-- `Exec` fails, and how many commands took effect if it does. `Start` is a sequence of steps.
pub mod Conservation
pub mod Drained
pub mod Tests
use go_utilities.Base.{
  ℕ, suc, zero, String, Bool, true, false, ◌||◌, List, [], ◌∷◌, ◌++◌, Option, none, some, is_empty,
  if◌then◌else◌, not,
}
use go_utilities.Base.Dict.{Dict, lookup, insert, keys}
use Prim.Native.String

pub record Floats : Type 1 where
  pub Float : Type 0
  pub zero : Float
  pub add : Float → Float → Float
  pub leb : Float → Float → Bool

-- What Redis makes of a pipeline.
pub record Outcome : Type 0 where
  pub fails : Bool
  pub applied : ℕ

abbrev pub take {ℓ} : {A : Type ℓ} → ℕ → List A → List A
take zero xs = []
take (suc n) [] = []
take (suc n) (x ∷ xs) = x ∷ take n xs

module _ (f : Floats) where
  open f use {Float, add, leb}

  pub record CounterEvent : Type 0 where
    pub prefix : String
    pub key : String
    pub delta : Float

  -- `stored` is the log of the increments that Redis has carried out, by Redis key.
  pub record CounterWorker : Type 0 where
    pub counts : Dict (Dict Float)
    pub threshold : Float
    pub flush_every : ℕ
    pub has_redis : Bool
    pub stored : List (String × Float)

  pub new_counter_worker : Bool → ℕ → Float → CounterWorker
  new_counter_worker has_redis flush_every threshold = record {
    counts = [];
    threshold = threshold;
    flush_every = flush_every;
    has_redis = has_redis;
    stored = [];
  }

  -- `prefix+":"+k`
  abbrev pub redis_key : String → String → String
  redis_key prefix k = String.◌++◌ prefix (String.◌++◌ ":" k)

  -- `for k, v := range data { pipe.IncrByFloat(ctx, prefix+":"+k, v) }`
  unfoldable pub pipeline : String → Dict Float → List (String × Float)
  pipeline prefix [] = []
  pipeline prefix ((k, v) ∷ data') = (redis_key prefix k, v) ∷ pipeline prefix data'

  abbrev pub or_nil : Option (Dict Float) → Dict Float
  or_nil none = []
  or_nil (some m) = m

  -- The new state, and whether there was an error.
  unfoldable pub flush_to_redis : Outcome → String → CounterWorker → CounterWorker × Bool
  flush_to_redis o prefix cw =
      let pending = or_nil (lookup prefix cw.counts) in
      if is_empty pending || not cw.has_redis
      then (cw, false)
      else if o.fails
      then (record cw { stored = cw.stored ++ take o.applied (pipeline prefix pending) }, true)
      else (
        record cw {
          counts = insert prefix [] cw.counts;
          stored = cw.stored ++ pipeline prefix pending;
        },
        false,
      )

  abbrev pub or_zero : Option Float → Float
  or_zero none = f.zero
  or_zero (some v) = v

  -- `cw.counts[ev.Prefix][ev.Key] += ev.Delta`, with the value after it
  unfoldable pub count_event : CounterEvent → CounterWorker → CounterWorker × Float
  count_event ev cw =
      let own = or_nil (lookup ev.prefix cw.counts) in
      let val = add (or_zero (lookup ev.key own)) ev.delta in
      (record cw { counts = insert ev.prefix (insert ev.key val own) cw.counts }, val)

  abbrev pub flush_if : Bool → Outcome → String → CounterWorker → CounterWorker
  flush_if due o prefix cw = if due then (flush_to_redis o prefix cw).0 else cw

  -- The case of an event.
  unfoldable pub handle_event : Outcome → CounterEvent → CounterWorker → CounterWorker
  handle_event o ev cw =
      let (counted, val) = count_event ev cw in flush_if (leb cw.threshold val) o ev.prefix counted

  -- `for prefix := range cw.counts { _ = cw.flushToRedis(ctx, prefix) }`
  unfoldable pub flush_each : (String → Outcome) → List String → CounterWorker → CounterWorker
  flush_each o [] cw = cw
  flush_each o (prefix ∷ prefixes) cw =
      flush_each o prefixes (flush_to_redis (o prefix) prefix cw).0

  unfoldable pub flush_all : (String → Outcome) → CounterWorker → CounterWorker
  flush_all o cw = flush_each o (keys cw.counts) cw

  pub get_interval : CounterWorker → ℕ
  get_interval cw = cw.flush_every

  unfoldable pub flush_now : Outcome → String → CounterWorker → CounterWorker × Bool
  flush_now o prefix cw = flush_to_redis o prefix cw

  -- One round of the loop of `Start`, or a call of `FlushNow` between two rounds. `stops` is the
  -- last round.
  pub data Round : Type 0 where
    handles : Outcome → CounterEvent → Round
    ticks stops : (String → Outcome) → Round
    flushes : Outcome → String → Round

  -- The rounds of `Start` up to the one that stops it.
  unfoldable pub start : List Round → CounterWorker → CounterWorker
  start [] cw = cw
  start (stops o ∷ rest) cw = flush_all o cw
  start (handles o ev ∷ rest) cw = start rest (handle_event o ev cw)
  start (ticks o ∷ rest) cw = start rest (flush_all o cw)
  start (flushes o prefix ∷ rest) cw = start rest (flush_now o prefix cw).0
