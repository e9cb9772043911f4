-- ===== src/Counter/Conservation.antt =====
-- Where the additions are exact, nothing that is counted is lost: what is stored and what is
-- pending add up to what was counted, and to what a failed pipeline stored all the same.
use go_utilities.Base.{
  ◌≡◌, refl, sym, ◌∙◌, ap, String, Bool, true, false, ◌||◌, not, List, [], ◌∷◌, ◌++◌, Option, none,
  some, if◌then◌else◌, ◌==◌, string_eq, eq_iff, Bool-cases, inl, inr, is_empty,
}
use go_utilities.Base.Dict.{Dict, lookup, insert, keys}
use go_utilities.Counter.{
  Floats, Outcome, take, CounterEvent, CounterWorker, redis_key, pipeline, or_nil, or_zero,
  flush_to_redis, count_event, handle_event, flush_each, flush_all, flush_now, flush_if, Round,
  handles, ticks, stops, flushes, start,
}

-- Addition as of numbers: the floats that the program adds stand for numbers that it adds exactly.
pub record IsExact (f : Floats) : Type 0 where
  pub add_assoc : (a b c : f.Float) → f.add (f.add a b) c ≡ f.add a (f.add b c)
  pub add_comm : (a b : f.Float) → f.add a b ≡ f.add b a
  pub add_zero : (a : f.Float) → f.add a f.zero ≡ a

module _ (f : Floats) (x : IsExact f) (at : String) where
  open f use {Float, add}

  -- An increment, as far as it is to the Redis key `at`.
  abbrev pub share : String → Float → Float
  share key v = if key == at then v else f.zero

  pub sum_at : List (String × Float) → Float
  sum_at [] = f.zero
  sum_at ((key, v) ∷ log) = add (share key v) (sum_at log)

  pub pending : Dict (Dict Float) → Float
  pending [] = f.zero
  pending ((prefix, own) ∷ m) = add (sum_at (pipeline f prefix own)) (pending m)

  abbrev pub total : CounterWorker f → Float
  total cw = add (sum_at cw.stored) (pending cw.counts)

  zero-add : (a : Float) → add f.zero a ≡ a
  zero-add a = x.add_comm f.zero a ∙ x.add_zero a

  swap_last : (a b c : Float) → add (add a b) c ≡ add (add a c) b
  swap_last a b c = x.add_assoc a b c ∙ ap (add a) (x.add_comm b c) ∙ sym (x.add_assoc a c b)

  sum_at-append : (xs ys : List (String × Float)) → sum_at (xs ++ ys) ≡ add (sum_at xs) (sum_at ys)
  unfolding sum_at
  sum_at-append [] ys = sym (zero-add (sum_at ys))
  sum_at-append ((key, v) ∷ xs) ys =
      ap (add (share key v)) (sum_at-append xs ys)
      ∙ sym (x.add_assoc (share key v) (sum_at xs) (sum_at ys))

  share-add : (key : String) (v d : Float) → share key (add v d) ≡ add (share key v) (share key d)
  share-add key v d = elim (Bool-cases (key == at)) [
    | inl hit ↦ rw hit refl
    | inr miss ↦ rw miss (sym (x.add_zero f.zero))
  ]

  -- Adding to one key of one prefix.
  sum_at-insert :
      (prefix k : String) (d : Float) (own : Dict Float) (held : Option Float)
      → lookup k own ≡ held
      → sum_at (pipeline f prefix (insert k (add (or_zero f held) d) own))
        ≡ add (sum_at (pipeline f prefix own)) (share (redis_key f prefix k) d)
  unfolding sum_at pipeline insert lookup
  sum_at-insert prefix k d [] none h =
      ap (λ e. add (share (redis_key f prefix k) e) f.zero) (zero-add d) ∙ x.add_comm _ _
  sum_at-insert prefix k d [] (some v) h = cc
  sum_at-insert prefix k d ((j, w) ∷ own) held h = elim (Bool-cases (j == k)) [
    | inl hit ↦
        rw (hit, ← (rw hit at h), ← (eq_iff j k).0 hit)
          (ap (λ e. add e (sum_at (pipeline f prefix own))) (share-add _ w d) ∙ swap_last _ _ _)
    | inr miss ↦ rw miss (
        ap (add (share (redis_key f prefix j) w)) (sum_at-insert prefix k d own held (rw miss at h))
        ∙ sym (x.add_assoc _ _ _))
  ]

  -- Replacing what is pending of one prefix by more.
  pending-insert :
      (prefix : String) (own : Dict Float) (d : Float) (m : Dict (Dict Float))
      → sum_at (pipeline f prefix own)
        ≡ add (sum_at (pipeline f prefix (or_nil f (lookup prefix m)))) d
      → pending (insert prefix own m) ≡ add (pending m) d
  unfolding pending insert lookup sum_at pipeline
  pending-insert prefix own d [] h = ap (λ e. add e f.zero) h ∙ x.add_zero _
  pending-insert prefix own d ((j, w) ∷ m) h = elim (Bool-cases (j == prefix)) [
    | inl hit ↦
        rw (hit, (eq_iff j prefix).0 hit)
          (ap (λ e. add e (pending m)) (rw hit at h) ∙ swap_last _ _ _)
    | inr miss ↦ rw miss (
        ap (add (sum_at (pipeline f j w))) (pending-insert prefix own d m (rw miss at h))
        ∙ sym (x.add_assoc _ _ _))
  ]

  -- Emptying one prefix.
  pending-flushed :
      (prefix : String) (m : Dict (Dict Float))
      → add (sum_at (pipeline f prefix (or_nil f (lookup prefix m)))) (pending (insert prefix [] m))
        ≡ pending m
  unfolding pending insert lookup sum_at pipeline
  pending-flushed prefix [] = ap (add f.zero) (x.add_zero f.zero) ∙ x.add_zero f.zero
  pending-flushed prefix ((j, w) ∷ m) = elim (Bool-cases (j == prefix)) [
    | inl hit ↦ rw (hit, (eq_iff j prefix).0 hit) (ap (add _) (zero-add (pending m)))
    | inr miss ↦ rw miss (
        sym (x.add_assoc _ _ _)
        ∙ ap (λ e. add e (pending (insert prefix [] m))) (x.add_comm _ _)
        ∙ x.add_assoc _ _ _
        ∙ ap (add (sum_at (pipeline f j w))) (pending-flushed prefix m))
  ]

  -- What a failed pipeline has stored, though the worker keeps it pending.
  abbrev pub stored_anyway : Outcome → String → CounterWorker f → Float
  stored_anyway o prefix cw =
      let own = or_nil f (lookup prefix cw.counts) in
      if is_empty own || not cw.has_redis
      then f.zero
      else if o.fails
      then sum_at (take o.applied (pipeline f prefix own))
      else f.zero

  add_shift : (s e p : Float) → add (add s e) p ≡ add (add s p) e
  add_shift s e p = swap_last s e p

  -- A flush moves counts from pending to stored. The sum of both stays as it is, but that what a
  -- failed pipeline has stored is counted again.
  pub flush_to_redis-total :
      (o : Outcome) (prefix : String) (cw : CounterWorker f)
      → total (flush_to_redis f o prefix cw).0 ≡ add (total cw) (stored_anyway o prefix cw)
  unfolding flush_to_redis
  flush_to_redis-total o prefix cw =
      elim (Bool-cases (is_empty (or_nil f (lookup prefix cw.counts)) || not cw.has_redis)) [
        | inl idle ↦ rw idle (sym (x.add_zero (total cw)))
        | inr due ↦ rw due (elim (Bool-cases o.fails) [
          | inl failed ↦
              rw failed
                (ap (λ e. add e (pending cw.counts)) (sum_at-append cw.stored _) ∙ swap_last _ _ _)
          | inr done ↦ rw done (
              ap (λ e. add e (pending (insert prefix [] cw.counts))) (sum_at-append cw.stored _)
              ∙ x.add_assoc _ _ _
              ∙ ap (add (sum_at cw.stored)) (pending-flushed prefix cw.counts)
              ∙ sym (x.add_zero (total cw)))
        ])
      ]

  -- A pipeline that fails stores nothing.
  abbrev pub IsAtomic : Outcome → Type 0
  IsAtomic o = o.fails ≡ true → o.applied ≡ 0

  stored_anyway_atomic :
      (o : Outcome) (prefix : String) (cw : CounterWorker f)
      → IsAtomic o
      → stored_anyway o prefix cw ≡ f.zero
  unfolding sum_at
  stored_anyway_atomic o prefix cw h =
      elim (Bool-cases (is_empty (or_nil f (lookup prefix cw.counts)) || not cw.has_redis)) [
        | inl idle ↦ rw idle refl
        | inr due ↦ rw due (elim (Bool-cases o.fails) [
          | inl failed ↦ rw (failed, h failed) refl
          | inr done ↦ rw done refl
        ])
      ]

  flush-total :
      (o : Outcome) (prefix : String) (cw : CounterWorker f)
      → IsAtomic o
      → total (flush_to_redis f o prefix cw).0 ≡ total cw
  flush-total o prefix cw h =
      flush_to_redis-total o prefix cw
      ∙ ap (add (total cw)) (stored_anyway_atomic o prefix cw h)
      ∙ x.add_zero (total cw)

  flush_each-total :
      (o : String → Outcome) (prefixes : List String) (cw : CounterWorker f)
      → ((prefix : String) → IsAtomic (o prefix))
      → total (flush_each f o prefixes cw) ≡ total cw
  unfolding flush_each
  flush_each-total o [] cw h = refl
  flush_each-total o (prefix ∷ prefixes) cw h =
      flush_each-total o prefixes (flush_to_redis f (o prefix) prefix cw).0 h
      ∙ flush-total (o prefix) prefix cw (h prefix)

  flush_all-total :
      (o : String → Outcome) (cw : CounterWorker f)
      → ((prefix : String) → IsAtomic (o prefix))
      → total (flush_all f o cw) ≡ total cw
  unfolding flush_all
  flush_all-total o cw h = flush_each-total o (keys cw.counts) cw h

  count_event-total :
      (ev : CounterEvent f) (cw : CounterWorker f)
      → total (count_event f ev cw).0
        ≡ add (total cw) (share (redis_key f ev.prefix ev.key) ev.delta)
  unfolding count_event
  count_event-total ev cw =
      ap (add (sum_at cw.stored)) (
        pending-insert ev.prefix _ (share (redis_key f ev.prefix ev.key) ev.delta) cw.counts
          (sum_at-insert ev.prefix ev.key ev.delta _ _ refl))
      ∙ sym (x.add_assoc _ _ _)

  flush_if-total :
      (due : Bool) (o : Outcome) (prefix : String) (cw : CounterWorker f)
      → IsAtomic o
      → total (flush_if f due o prefix cw) ≡ total cw
  flush_if-total true o prefix cw h = flush-total o prefix cw h
  flush_if-total false o prefix cw h = refl

  handle_event-total :
      (o : Outcome) (ev : CounterEvent f) (cw : CounterWorker f)
      → IsAtomic o
      → total (handle_event f o ev cw)
        ≡ add (total cw) (share (redis_key f ev.prefix ev.key) ev.delta)
  unfolding handle_event
  handle_event-total o ev cw h =
      flush_if-total (f.leb cw.threshold (count_event f ev cw).1) o ev.prefix
        (count_event f ev cw).0 h
      ∙ count_event-total ev cw

  -- No pipeline of the rounds stores anything if it fails.
  abbrev pub AreAtomic : List (Round f) → Type 0
  AreAtomic [] = Unit {0}
  AreAtomic (handles o ev ∷ rest) = IsAtomic o × AreAtomic rest
  AreAtomic (ticks o ∷ rest) = ((prefix : String) → IsAtomic (o prefix)) × AreAtomic rest
  AreAtomic (stops o ∷ rest) = ((prefix : String) → IsAtomic (o prefix)) × AreAtomic rest
  AreAtomic (flushes o prefix ∷ rest) = IsAtomic o × AreAtomic rest

  -- What the events of the rounds count for the key, up to the round that stops the worker.
  abbrev pub counted : List (Round f) → Float
  counted [] = f.zero
  counted (handles o ev ∷ rest) = add (share (redis_key f ev.prefix ev.key) ev.delta) (counted rest)
  counted (ticks o ∷ rest) = counted rest
  counted (stops o ∷ rest) = f.zero
  counted (flushes o prefix ∷ rest) = counted rest

  -- Where additions are exact and a failed pipeline stores nothing, whatever the rounds of the
  -- worker are: for each Redis key, what is stored and what is pending afterwards add up to what
  -- they added up to before and what the handled events count for the key.
  pub start-total :
      (rounds : List (Round f)) (cw : CounterWorker f)
      → AreAtomic rounds
      → total (start f rounds cw) ≡ add (total cw) (counted rounds)
  unfolding start flush_now
  start-total [] cw h = sym (x.add_zero (total cw))
  start-total (handles o ev ∷ rest) cw (here, h) =
      start-total rest (handle_event f o ev cw) h
      ∙ ap (λ e. add e (counted rest)) (handle_event-total o ev cw here)
      ∙ x.add_assoc _ _ _
  start-total (ticks o ∷ rest) cw (here, h) =
      start-total rest (flush_all f o cw) h
      ∙ ap (λ e. add e (counted rest)) (flush_all-total o cw here)
  start-total (stops o ∷ rest) cw (here, h) =
      flush_all-total o cw here ∙ sym (x.add_zero (total cw))
  start-total (flushes o prefix ∷ rest) cw (here, h) =
      start-total rest (flush_to_redis f o prefix cw).0 h
      ∙ ap (λ e. add e (counted rest)) (flush-total o prefix cw here)
