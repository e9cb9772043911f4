-- ===== src/Counter/Drained.antt =====
-- What is left pending after a flush of every prefix.
use go_utilities.Base.{
  ◌≡◌, refl, ◌∙◌, String, Bool, false, ◌||◌, ◌&&◌, not, List, [], ◌∷◌, arith, if◌then◌else◌, ◌==◌,
  string_eq, eq_iff,
}
use go_utilities.Base.Dict.{Dict, lookup, keys}
use go_utilities.Base.Dict.Laws.{lookup-insert}
use go_utilities.Counter.{
  Floats, Outcome, CounterWorker, or_nil, flush_to_redis, flush_each, flush_all,
}

module _ (f : Floats) where
  -- What is pending of a prefix.
  abbrev pub pending_of : String → CounterWorker f → Dict f.Float
  pending_of prefix cw = or_nil f (lookup prefix cw.counts)

  -- What a flush of `prefix` leaves pending of `p`.
  abbrev left : Outcome → String → String → CounterWorker f → Dict f.Float
  left o prefix p cw = if prefix == p && (cw.has_redis && not o.fails) then [] else pending_of p cw

  flush-left :
      (o : Outcome) (prefix p : String) (cw : CounterWorker f)
      → (pending_of p (flush_to_redis f o prefix cw).0 ≡ left o prefix p cw)
        × ((flush_to_redis f o prefix cw).0.has_redis ≡ cw.has_redis)
  unfolding flush_to_redis
  flush-left o prefix p cw = ground (arith, lookup-insert prefix p [] cw.counts, eq_iff prefix p)

  abbrev is_in : String → List String → Bool
  is_in p [] = false
  is_in p (k ∷ ks) = k == p || is_in p ks

  flush_each-left :
      (o : String → Outcome) (p : String) (ks : List String) (cw : CounterWorker f)
      → pending_of p (flush_each f o ks cw)
        ≡ (if is_in p ks && (cw.has_redis && not (o p).fails) then [] else pending_of p cw)
  unfolding flush_each
  flush_each-left o p [] cw = refl
  flush_each-left o p (k ∷ ks) cw =
      let (here, same) = flush-left (o k) k p cw in
      flush_each-left o p ks (flush_to_redis f (o k) k cw).0
      ∙ ground (arith, here, same, eq_iff k p)

  is_in-keys :
      (p : String) (m : Dict (Dict f.Float)) → is_in p (keys m) ≡ false → or_nil f (lookup p m) ≡ []
  unfolding keys lookup
  is_in-keys p [] h = refl
  is_in-keys p ((k, v) ∷ m) h = ground (arith, is_in-keys p m)

  -- A flush of every prefix, by a tick or at the stop, leaves nothing pending of a prefix whose
  -- pipeline succeeds, if there is a Redis client; and of any other prefix what was pending.
  pub flush_all-left :
      (o : String → Outcome) (p : String) (cw : CounterWorker f)
      → pending_of p (flush_all f o cw)
        ≡ (if cw.has_redis && not (o p).fails then [] else pending_of p cw)
  unfolding flush_all
  flush_all-left o p cw =
      flush_each-left o p (keys cw.counts) cw ∙ ground (arith, is_in-keys p cw.counts)
