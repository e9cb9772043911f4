-- ===== src/HttpClient/Url/Laws.antt =====
-- Slashes at the joints of a URL.
use go_utilities.Base.{
  ◌≡◌, refl, ◌∙◌, ap, ap₂, List, [], ◌∷◌, ◌++◌, ◌==◌, if◌then◌else◌, nat_eq, Bool-cases, inl, inr,
}
use go_utilities.Base.Text.{Text, text_eq, join, trim, trim_left}
use mathlib.Core.List.{reverse, reverse-append}
use go_utilities.HttpClient.Url.{trim_right, path_parts, build_url}

trim_right-slash : (s : Text) → trim_right b'/' (s ++ b'/' ∷ []) ≡ trim_right b'/' s
unfolding trim_right trim_left
trim_right-slash s = ap (λ r. reverse (trim_left b'/' r)) (reverse-append s (b'/' ∷ []))

-- Without what `trim_left` removes, `trim` is `trim_right`.
trim-append : (s : Text) → trim b'/' (s ++ b'/' ∷ []) ≡ trim b'/' s
unfolding trim trim_left trim_right
trim-append [] = refl
trim-append (c ∷ s) = elim (Bool-cases (c == b'/')) [
  | inl slash ↦ rw slash (trim-append s)
  | inr other ↦ rw other (trim_right-slash (c ∷ s))
]

trim-cons : (s : Text) → trim b'/' (b'/' ∷ s) ≡ trim b'/' s
unfolding trim trim_left
trim-cons s = refl

path_parts-slashes :
    (p : Text) (ps : List Text) → path_parts ((b'/' ∷ p ++ b'/' ∷ []) ∷ ps) ≡ path_parts (p ∷ ps)
unfolding path_parts
path_parts-slashes p ps =
    ap (λ (t : Text). if t == [] then path_parts ps else t ∷ path_parts ps)
      (trim-cons (p ++ b'/' ∷ []) ∙ trim-append p)

-- A slash at the end of the base, and slashes at the ends of the first path, change nothing.
pub build_url-slashes :
    (base p : Text) (ps : List Text)
    → build_url (base ++ b'/' ∷ []) ((b'/' ∷ p ++ b'/' ∷ []) ∷ ps) ≡ build_url base (p ∷ ps)
unfolding build_url
build_url-slashes base p ps =
    ap₂ (λ b parts. b ++ b'/' ∷ join b'/' parts) (trim_right-slash base) (path_parts-slashes p ps)
