-- ===== src/Base/Dict.antt =====
-- A Go map with text keys, as an association list. The order of the list stands for the order in
-- which a `range` loop happens to visit the map; a key that is assigned again keeps its place.
pub mod Laws
use Prim.Native.String.{String}
use mathlib.Core.Option.{Option, none, some}
use mathlib.Core.List.{List, [], ◌∷◌}
use go_utilities.Base.Tests.{◌==◌, if◌then◌else◌, string_eq}

abbrev pub Dict {ℓ} : Type ℓ → Type ℓ
Dict V = List (String × V)

module _ {ℓ} {V : Type ℓ} where
  unfoldable pub lookup : String → Dict V → Option V
  lookup k [] = none
  lookup k ((j, v) ∷ m) = if j == k then some v else lookup k m

  -- `m[k] = v`
  unfoldable pub insert : String → V → Dict V → Dict V
  insert k v [] = (k, v) ∷ []
  insert k v ((j, w) ∷ m) = if j == k then (j, v) ∷ m else (j, w) ∷ insert k v m

  -- `delete(m, k)`
  unfoldable pub delete : String → Dict V → Dict V
  delete k [] = []
  delete k ((j, v) ∷ m) = if j == k then delete k m else (j, v) ∷ delete k m

  unfoldable pub keys : Dict V → List String
  keys [] = []
  keys ((k, v) ∷ m) = k ∷ keys m

  unfoldable pub values : Dict V → List V
  values [] = []
  values ((k, v) ∷ m) = v ∷ values m

-- What a `range` loop leaves at a key: a value, or nothing where the body deletes the key.
abbrev pub keep {ℓ} : {W : Type ℓ} → String → Option W → Dict W → Dict W
keep k none rest = rest
keep k (some w) rest = (k, w) ∷ rest

-- A `range` loop that gives each value anew or deletes its key.
unfoldable pub rework {ℓ κ} : {V : Type ℓ} {W : Type κ} → (V → Option W) → Dict V → Dict W
rework f [] = []
rework f ((k, v) ∷ m) = keep k (f v) (rework f m)
