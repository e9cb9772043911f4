-- ===== src/Base/Text/Laws.antt =====
-- Splitting and joining.
use Prim.Native.Nat.{ℕ}
use mathlib.Core.Path.{◌≡◌, refl, ap, ◌∙◌}
use mathlib.Core.Logic.{◌≢◌}
use mathlib.Core.List.{List, [], ◌∷◌, ◌++◌}
use native.Mathlib.Omega.{arith}
use go_utilities.Base.Tests.{nat_eq}
use go_utilities.Base.Lists.{All}
use go_utilities.Base.Text.{Text, split, join, onto_first}

-- The byte does not occur.
abbrev pub Lacks : ℕ → Text → Type 0
Lacks sep [] = Unit {0}
Lacks sep (c ∷ s) = (c ≢ sep) × Lacks sep s

split-ne-nil : (sep : ℕ) (s : Text) → split sep s ≢ []
unfolding split
split-ne-nil sep [] = cc
split-ne-nil sep (c ∷ s) = ground (arith, split-ne-nil sep s)

join-onto_first :
    (sep c : ℕ) (parts : List Text) → join sep (onto_first c parts) ≡ c ∷ join sep parts
unfolding join
join-onto_first sep c [] = refl
join-onto_first sep c (part ∷ []) = refl
join-onto_first sep c (part ∷ next ∷ parts) = refl

join-nil : (sep : ℕ) (parts : List Text) → parts ≢ [] → join sep ([] ∷ parts) ≡ sep ∷ join sep parts
unfolding join
join-nil sep [] h = absurd (h refl)
join-nil sep (part ∷ parts) h = refl

join-split_nil : (sep : ℕ) → join sep (split sep []) ≡ []
unfolding split join
join-split_nil sep = refl

pub join-split : (sep : ℕ) (s : Text) → join sep (split sep s) ≡ s
unfolding split
join-split sep [] = join-split_nil sep
join-split sep (c ∷ s) = ground (
  arith,
  join-split sep s,
  join-nil sep (split sep s) (split-ne-nil sep s),
  join-onto_first sep c (split sep s),
)

onto_first-Lacks :
    (sep c : ℕ) (parts : List Text)
    → c ≢ sep
    → All (Lacks sep) parts
    → All (Lacks sep) (onto_first c parts)
onto_first-Lacks sep c [] h a = ((h, tt), tt)
onto_first-Lacks sep c (part ∷ parts) h (p, a) = ((h, p), a)

pub split-Lacks : (sep : ℕ) (s : Text) → All (Lacks sep) (split sep s)
unfolding split
split-Lacks sep [] = (tt, tt)
split-Lacks sep (c ∷ s) = ground (arith, split-Lacks sep s, onto_first-Lacks sep c (split sep s))

pub split_of_Lacks : (sep : ℕ) (s : Text) → Lacks sep s → split sep s ≡ s ∷ []
unfolding split
split_of_Lacks sep [] h = refl
split_of_Lacks sep (c ∷ s) (here, h) = ground (arith, split_of_Lacks sep s h)

pub split-append :
    (sep : ℕ) (part s : Text) → Lacks sep part → split sep (part ++ sep ∷ s) ≡ part ∷ split sep s
unfolding split
split-append sep [] s h = ground arith
split-append sep (c ∷ part) s (here, h) = ground (arith, split-append sep part s h)

-- Splitting undoes joining, of at least one part, where no part holds the separator.
pub split-join :
    (sep : ℕ) (part : Text) (parts : List Text)
    → All (Lacks sep) (part ∷ parts)
    → split sep (join sep (part ∷ parts)) ≡ part ∷ parts
unfolding join
split-join sep part [] (p, a) = split_of_Lacks sep part p
split-join sep part (next ∷ parts) (p, a) =
    split-append sep part (join sep (next ∷ parts)) p ∙ ap (◌∷◌ part) (split-join sep next parts a)
