-- ===== src/Database/Transaction.antt =====
-- When a transaction succeeds.
use go_utilities.Base.{◌≡◌, refl, ap, ◌↔◌, Option, none, some}
use go_utilities.Database.{Err, Driving, with_transaction, after_begin, after_run}

module _ {S : Type 0} (d : Driving S) where
  -- The transaction was begun, run and committed, each without an error.
  abbrev pub Commits : S → S → Type 0
  Commits s t =
      (begun : S) × (ran : S) × (d.begin_tx s ≡ (begun, none))
      × (d.run begun ≡ (ran, none))
      × (d.commit ran ≡ (t, none))

  committed :
      (r : S × Option Err) (t : S)
      → after_run d r ≡ (t, none)
      → (ran : S) × (r ≡ (ran, none)) × (d.commit ran ≡ (t, none))
  committed (ran, none) t h = (ran, refl, h)
  committed (ran, some e) t h = absurd (some-ne (ap (λ p. p.1) h))
    where
      some-ne : some e ≡ none → ⊥
      some-ne i = cc

  begun_of :
      (r : S × Option Err) (t : S)
      → after_begin d r ≡ (t, none)
      → (begun : S) × (r ≡ (begun, none)) × (after_run d (d.run begun) ≡ (t, none))
  begun_of (begun, none) t h = (begun, refl, h)
  begun_of (begun, some e) t h = absurd (some-ne (ap (λ p. p.1) h))
    where
      some-ne : some e ≡ none → ⊥
      some-ne i = cc

  -- `WithTransaction` gives no error exactly when `BeginTx`, the function and `Commit`, in this
  -- order, each gave none, and it leaves the database as `Commit` did.
  pub with_transaction_iff : (s t : S) → (with_transaction d s ≡ (t, none)) ↔ Commits s t
  unfolding with_transaction
  with_transaction_iff s t = (
    λ h.
        let (begun, b, h1) = begun_of (d.begin_tx s) t h in
        let (ran, r, c) = committed (d.run begun) t h1 in (begun, ran, b, r, c),
    λ (begun, ran, b, r, c). rw b (rw r c),
  )

  -- If the transaction begins and the function gives an error, that error is returned, and the
  -- database is left as `Rollback` leaves it, whatever `Rollback` answers.
  pub with_transaction-rollback :
      (s begun ran : S) (e : Err)
      → d.begin_tx s ≡ (begun, none)
      → d.run begun ≡ (ran, some e)
      → with_transaction d s ≡ ((d.rollback ran).0, some e)
  unfolding with_transaction
  with_transaction-rollback s begun ran e b r = rw b (rw r refl)
