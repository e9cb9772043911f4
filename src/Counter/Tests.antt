-- ===== src/Counter/Tests.antt =====
-- Runs over natural numbers for floats, and the theorems at concrete inputs.
use native.Mathlib.Nat.{add_assoc, add_comm, add-zero}
use go_utilities.Base.{ℕ, ◌+◌, ◌≡◌, refl, true, false, List, [], ◌∷◌, leb}
use go_utilities.Base.Dict.{lookup, insert}
use go_utilities.Counter.{
  Floats, Outcome, CounterEvent, CounterWorker, Round, handles, stops, start, flush_to_redis,
  handle_event, count_event, pipeline,
}
use go_utilities.Counter.Conservation.{IsExact, total, counted, start-total}

abbrev whole : Floats
whole = record { Float = ℕ; zero = 0; add = λ a b. a + b; leb = leb }

whole-IsExact : IsExact whole
whole-IsExact = record { add_assoc = add_assoc; add_comm = add_comm; add_zero = add-zero }

abbrev works : Outcome
works = record { fails = false; applied = 0 }

abbrev worker : CounterWorker whole
worker = record {
  counts = ("hits", ("home", 3) ∷ ("about", 1) ∷ []) ∷ [];
  threshold = 10;
  flush_every = 60;
  has_redis = true;
  stored = [];
}

abbrev visit : ℕ → CounterEvent whole
visit n = record { prefix = "hits"; key = "home"; delta = n }

abbrev day : List (Round whole)
day = handles works (visit 2) ∷ handles works (visit 9) ∷ stops (λ p. works) ∷ []

flushed_at_threshold :
    (handle_event whole works (visit 9) worker).stored ≡ ("hits:home", 12) ∷ ("hits:about", 1) ∷ []
unfolding handle_event count_event flush_to_redis pipeline lookup insert
flushed_at_threshold = refl

start-total_example :
    total whole whole-IsExact "hits:home" (start whole day worker)
    ≡ total whole whole-IsExact "hits:home" worker + counted whole whole-IsExact "hits:home" day
start-total_example =
    start-total whole whole-IsExact "hits:home" day worker
      ((λ h. refl), ((λ h. refl), ((λ p h. refl), tt)))
