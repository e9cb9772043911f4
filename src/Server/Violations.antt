-- ===== src/Server/Violations.antt =====
-- Database errors in a chain of errors, and the names of fields in those of constraints.
use go_utilities.Base.{
  ◌≡◌, refl, ◌∙◌, sym, ap, subst, ◌↔◌, ◌≤◌, ◌<◌, ◌⊎◌, inl, inr, true, false, List, [], ◌∷◌, ◌++◌,
  Option, none, some, arith, ltb, length, All, Bool-cases, Option-cases, if◌then◌else◌,
}
use go_utilities.Base.Text.{Text, codes, split, text_eq, text_beq_iff}
use go_utilities.Server.Errors.{
  GoError, api, internal, internal_around, postgres, wrapped, plain, PgError, InternalError,
  as_pg_error, has_code, is_unique_violation, is_foreign_key_violation, get_constraint_name,
  is_suffix, last_name, parse_unique_violation_field,
}

-- The error is, or wraps at any depth, the error of PostgreSQL.
pub data InChain (p : PgError) : GoError → Type 0 where
  itself : InChain p (postgres p)
  in_wrapped : (m : Text) {e : GoError} → InChain p e → InChain p (wrapped m e)
  in_original : (i : InternalError) {e : GoError} → InChain p e → InChain p (internal_around i e)

as_pg_error-InChain : {p : PgError} {e : GoError} → InChain p e → as_pg_error e ≡ some p
unfolding as_pg_error
as_pg_error-InChain itself = refl
as_pg_error-InChain (in_wrapped m c) = as_pg_error-InChain c
as_pg_error-InChain (in_original i c) = as_pg_error-InChain c

some_inj : {a b : PgError} → some a ≡ some b → a ≡ b
some_inj h = cc

InChain-as_pg_error : (p : PgError) (e : GoError) → as_pg_error e ≡ some p → InChain p e
unfolding as_pg_error
InChain-as_pg_error p (api e) h = cc
InChain-as_pg_error p (internal e) h = cc
InChain-as_pg_error p (internal_around i e) h = in_original i (InChain-as_pg_error p e h)
InChain-as_pg_error p (postgres q) h = subst (λ r. InChain r (postgres q)) (some_inj h) itself
InChain-as_pg_error p (wrapped m e) h = in_wrapped m (InChain-as_pg_error p e h)
InChain-as_pg_error p (plain m) h = cc

has_code_iff :
    (code : Text) (e : GoError)
    → (has_code code (as_pg_error e) ≡ true) ↔ ((p : PgError) × InChain p e × (p.code ≡ code))
has_code_iff code e = elim (Option-cases (as_pg_error e)) [
  | inl none' ↦
      rw none'
        (λ h. cc, λ (p, chain, h). absurd (none-ne-some (sym none' ∙ as_pg_error-InChain chain)))
  | inr (q, found) ↦ rw found (
    λ h. (q, InChain-as_pg_error q e found, (text_beq_iff q.code code).0 h),
    λ (p, chain, h).
        (text_beq_iff q.code code).1
          (ap (λ (r : PgError). r.code) (some_inj (sym found ∙ as_pg_error-InChain chain)) ∙ h),
  )
]
  where
    none-ne-some : {p : PgError} → none ≡ some p → ⊥
    none-ne-some h = cc

-- An error is a unique violation exactly when it is or wraps, at any depth, an error of PostgreSQL
-- with the code 23505, and a foreign key violation exactly when it does with the code 23503.
pub violation_iff :
    (e : GoError)
    → ((is_unique_violation e ≡ true) ↔ ((p : PgError) × InChain p e × (p.code ≡ codes "23505")))
      × ((is_foreign_key_violation e ≡ true)
          ↔ ((p : PgError) × InChain p e × (p.code ≡ codes "23503")))
unfolding is_unique_violation is_foreign_key_violation
violation_iff e = (has_code_iff (codes "23505") e, has_code_iff (codes "23503") e)

-- The constraint name of an error that is or wraps, at any depth, one of PostgreSQL is that error's.
pub get_constraint_name-InChain :
    (e : GoError) (p : PgError) → InChain p e → get_constraint_name e ≡ p.constraint_name
unfolding get_constraint_name
get_constraint_name-InChain e p chain = rw (as_pg_error-InChain chain, get_constraint_name) refl

-- `name` stands in the parts, and only suffixes stand after it.
abbrev pub IsLast : Text → List Text → Type 0
IsLast name parts =
    (before : List Text) × (after : List Text) × (parts ≡ before ++ name ∷ after)
    × (is_suffix name ≡ false)
    × All (λ part. is_suffix part ≡ true) after

abbrev pub AllSuffixes : List Text → Type 0
AllSuffixes parts = All (λ part. is_suffix part ≡ true) parts

-- What `last_name` gives.
abbrev Last : List Text → Option Text → Type 0
Last parts none = AllSuffixes parts
Last parts (some name) = IsLast name parts

last_name-Last : (parts : List Text) → Last parts (last_name parts)
unfolding last_name
last_name-Last [] = tt
last_name-Last (part ∷ parts) = step (last_name parts) (last_name-Last parts)
  where
    step :
        (o : Option Text)
        → Last parts o
        → Last
            (part ∷ parts)
            (elim o [ some name ↦ some name | none ↦ if is_suffix part then none else some part ])
    step (some name) (before, after, e, clear, rest) =
        (part ∷ before, after, ap (◌∷◌ part) e, clear, rest)
    step none rest = elim (Bool-cases (is_suffix part)) [
      | inl suffix ↦ rw suffix (suffix, rest)
      | inr clear ↦ rw clear ([], parts, refl, clear, rest)
    ]

-- The field of a constraint's name is the last of the parts between "_" that is not "key", "idx" or
-- "unique", where there are two parts or more and such a one; otherwise it is the whole name.
pub parse_unique_violation_field_lem :
    (name : Text)
    → ((2 ≤ length (split b'_' name))
        × IsLast (parse_unique_violation_field name) (split b'_' name))
      ⊎ ((parse_unique_violation_field name ≡ name)
          × ((length (split b'_' name) < 2) ⊎ AllSuffixes (split b'_' name)))
unfolding parse_unique_violation_field
parse_unique_violation_field_lem name = elim (Bool-cases (ltb (length (split b'_' name)) 2)) [
  | inl few ↦ inr (rw few refl, inl (ground arith))
  | inr enough ↦
      rw enough (go enough (last_name (split b'_' name)) (last_name-Last (split b'_' name)))
]
  where
    go :
        ltb (length (split b'_' name)) 2 ≡ false
        → (o : Option Text) → Last (split b'_' name) o
        → ((2 ≤ length (split b'_' name))
            × IsLast (elim o [ none ↦ name | some part ↦ part ]) (split b'_' name))
          ⊎ (((elim o [ none ↦ name | some part ↦ part ]) ≡ name)
              × ((length (split b'_' name) < 2) ⊎ AllSuffixes (split b'_' name)))
    go enough none l = inr (refl, inr l)
    go enough (some part) l = inl (ground (arith, enough), l)
