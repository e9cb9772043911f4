-- ===== src/Base/Dict/Laws.antt =====
-- What an association list promises as a map: the laws of each operation in `if` form, and
-- keys that stay distinct.
use Prim.Native.String.{String}
use mathlib.Core.Path.{◌≡◌, refl, subst₂}
use mathlib.Core.Logic.{inl, inr}
use mathlib.Core.Option.{Option, none, some}
use mathlib.Core.List.{[], ◌∷◌}
use native.Mathlib.Omega.{arith}
use text.Mathlib.TextEquality.{eq_iff}
use go_utilities.Base.Tests.{◌==◌, if◌then◌else◌, string_eq, Bool-cases, Option-cases}
use go_utilities.Base.Dict.{Dict, lookup, insert, delete, rework}

module _ {ℓ} {V : Type ℓ} where
  pub lookup-insert :
      (set other : String) (x : V) (d : Dict V)
      → lookup other (insert set x d) ≡ (if set == other then some x else lookup other d)
  unfolding lookup insert
  lookup-insert set other x [] = refl
  lookup-insert set other x ((here, y) ∷ d) =
      ground
        (arith, lookup-insert set other x d, eq_iff here other, eq_iff here set, eq_iff set other)

  pub lookup-delete :
      (k j : String) (m : Dict V) → lookup j (delete k m) ≡ (if k == j then none else lookup j m)
  unfolding lookup delete
  lookup-delete k j [] = ground arith
  lookup-delete k j ((i, w) ∷ m) =
      ground (arith, eq_iff k j, eq_iff i k, eq_iff i j, lookup-delete k j m)

  -- No key stands twice.
  abbrev pub IsDistinct : Dict V → Type ℓ
  IsDistinct [] = Unit
  IsDistinct ((k, v) ∷ m) = (lookup k m ≡ none) × IsDistinct m

  pub insert-IsDistinct :
      (k : String) (v : V) (m : Dict V) → IsDistinct m → IsDistinct (insert k v m)
  unfolding insert lookup
  insert-IsDistinct k v [] h = (refl, tt)
  insert-IsDistinct k v ((j, w) ∷ m) (fresh, h) =
      ground (arith, lookup-insert k j v m, insert-IsDistinct k v m h, eq_iff j k, eq_iff k j)

  pub delete-IsDistinct : (k : String) (m : Dict V) → IsDistinct m → IsDistinct (delete k m)
  unfolding delete
  delete-IsDistinct k [] h = tt
  delete-IsDistinct k ((j, w) ∷ m) (fresh, h) =
      ground (arith, lookup-delete k j m, delete-IsDistinct k m h)

  -- What holds of every entry.
  abbrev pub Entries {κ} : (String → V → Type κ) → Dict V → Type κ
  Entries P [] = Unit
  Entries P ((k, v) ∷ m) = P k v × Entries P m

  module _ {κ} (P : String → V → Type κ) where
    pub Entries-insert :
        (k : String) (v : V) (m : Dict V) → P k v → Entries P m → Entries P (insert k v m)
    unfolding insert
    Entries-insert k v [] p h = (p, tt)
    Entries-insert k v ((j, w) ∷ m) p (q, h) = ground (arith, eq_iff j k, Entries-insert k v m p h)

    pub Entries-delete : (k : String) (m : Dict V) → Entries P m → Entries P (delete k m)
    unfolding delete
    Entries-delete k [] h = tt
    Entries-delete k ((j, w) ∷ m) (q, h) = ground (arith, Entries-delete k m h)

    pub Entries-lookup :
        (k : String) (v : V) (m : Dict V) → Entries P m → lookup k m ≡ some v → P k v
    unfolding lookup
    Entries-lookup k v [] h e = cc
    Entries-lookup k v ((j, w) ∷ m) (q, h) e = elim (Bool-cases (j == k)) [
      | inl hit ↦ subst₂ P ((eq_iff j k).0 hit) (ground arith) q
      | inr miss ↦ Entries-lookup k v m h (ground arith)
    ]

-- What a value becomes under an optional change.
abbrev pub then_maybe {ℓ κ} : {V : Type ℓ} {W : Type κ} → Option V → (V → Option W) → Option W
then_maybe none f = none
then_maybe (some v) f = f v

module _ {ℓ κ} {V : Type ℓ} {W : Type κ} (f : V → Option W) where
  pub lookup-rework :
      (k : String) (m : Dict V) → IsDistinct m → lookup k (rework f m) ≡ then_maybe (lookup k m) f
  unfolding lookup rework
  lookup-rework k [] h = refl
  lookup-rework k ((j, v) ∷ m) (fresh, h) = ground (arith, eq_iff j k, lookup-rework k m h)

  pub rework-IsDistinct : (m : Dict V) → IsDistinct m → IsDistinct (rework f m)
  unfolding rework
  rework-IsDistinct [] h = tt
  rework-IsDistinct ((j, v) ∷ m) (fresh, h) =
      ground (arith, lookup-rework j m h, rework-IsDistinct m h)

  module _ {μ ν} (P : String → V → Type μ) (Q : String → W → Type ν) where
    -- Each entry that is kept has what its old value gave it.
    pub Entries-rework :
        ((k : String) (v : V) (w : W) → P k v → f v ≡ some w → Q k w)
        → (m : Dict V) → Entries P m
        → Entries Q (rework f m)
    unfolding rework
    Entries-rework step [] h = tt
    Entries-rework step ((j, v) ∷ m) (p, h) = elim (Option-cases (f v)) [
      | inl gone ↦ rw gone (Entries-rework step m h)
      | inr (w, kept) ↦ rw kept (step j v w p kept, Entries-rework step m h)
    ]
