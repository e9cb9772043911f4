-- ===== src/Database/Dsn.antt =====
-- Driver names and the MySQL data source name.
use go_utilities.Base.{
  ℕ, ◌≡◌, ◌≢◌, refl, ap, ◌∙◌, sym, List, [], ◌∷◌, ◌++◌, arith, if◌then◌else◌, is_empty,
}
use mathlib.Core.List.{append_assoc, append-nil}
use go_utilities.Base.Text.{Text, codes, to_lower, join, lower}
use go_utilities.Database.{ConnectionString, dsn, mysql, option_string, drop_last, parse_driver}

lower-lower : (c : ℕ) → lower (lower c) ≡ lower c
lower-lower c = ground arith

to_lower_idempotent : (s : Text) → to_lower (to_lower s) ≡ to_lower s
unfolding to_lower
to_lower_idempotent [] = refl
to_lower_idempotent (c ∷ s) = cc (lower-lower c, to_lower_idempotent s)

-- `key=value`
abbrev pub setting : Text × Text → Text
setting (k, v) = k ++ (b'=' ∷ v)

abbrev pub settings : List (Text × Text) → List Text
settings [] = []
settings (o ∷ os) = setting o ∷ settings os

drop_last-append : (xs ys : Text) (y : ℕ) → drop_last (xs ++ y ∷ ys) ≡ xs ++ drop_last (y ∷ ys)
unfolding drop_last
drop_last-append [] ys y = refl
drop_last-append (x ∷ []) ys y = refl
drop_last-append (x ∷ z ∷ xs) ys y = ap (◌∷◌ x) (drop_last-append (z ∷ xs) ys y)

drop_last-cons : (c : ℕ) (s : Text) → s ≢ [] → drop_last (c ∷ s) ≡ c ∷ drop_last s
unfolding drop_last
drop_last-cons c [] h = absurd (h refl)
drop_last-cons c (d ∷ s) h = refl

option_string-ne-nil :
    (sep : ℕ) (o : Text × Text) (os : List (Text × Text)) → option_string sep (o ∷ os) ≢ []
unfolding option_string
option_string-ne-nil sep ([], v) os = cc
option_string-ne-nil sep (c ∷ k, v) os = cc

option_string-cons :
    (sep : ℕ) (o : Text × Text) (os : List (Text × Text))
    → option_string sep (o ∷ os) ≡ setting o ++ sep ∷ option_string sep os
unfolding option_string
option_string-cons sep (k, v) os = sym (append_assoc k (b'=' ∷ v) _)

-- Without its last separator, the option string is the settings, joined.
drop_last-option_string :
    (sep : ℕ) (o : Text × Text) (os : List (Text × Text))
    → drop_last (option_string sep (o ∷ os)) ≡ join sep (settings (o ∷ os))
unfolding join
drop_last-option_string sep o [] =
    ap drop_last (option_string-cons sep o [])
    ∙ drop_last-append (setting o) _ sep
    ∙ ap (◌++◌ (setting o)) (end sep)
    ∙ append-nil (setting o)
  where
    end : (c : ℕ) → drop_last (c ∷ option_string c []) ≡ []
    end c = unfold drop_last option_string in refl
drop_last-option_string sep o (p ∷ os) =
    ap drop_last (option_string-cons sep o (p ∷ os))
    ∙ drop_last-append (setting o) _ sep
    ∙ ap (◌++◌ (setting o)) (
        drop_last-cons sep (option_string sep (p ∷ os)) (option_string-ne-nil sep p os)
        ∙ ap (◌∷◌ sep) (drop_last-option_string sep p os))

-- The MySQL name up to the database.
abbrev pub address : ConnectionString → Text
address cs =
    cs.user
    ++ (b':'
        ∷ (cs.password
            ++ (codes "@tcp(" ++ (cs.host ++ (b':' ∷ (cs.port ++ (codes ")/" ++ cs.database)))))))

-- The options after the address, where there are any.
abbrev pub query : List (Text × Text) → Text
query [] = []
query (o ∷ os) = b'?' ∷ join b'&' (settings (o ∷ os))

-- The MySQL data source name is the address and, where there are options, "?" and the settings,
-- joined by "&", with none at the end.
pub dsn_mysql : (cs : ConnectionString) → dsn mysql cs ≡ address cs ++ query cs.options
unfolding dsn
dsn_mysql cs = go cs.options refl
  where
    go :
        (os : List (Text × Text))
        → cs.options ≡ os
        → (if is_empty os
            then address cs
            else drop_last (address cs ++ (b'?' ∷ option_string b'&' os)))
          ≡ address cs ++ query os
    go [] e = sym (append-nil (address cs))
    go (o ∷ os) e =
        drop_last-append (address cs) (option_string b'&' (o ∷ os)) b'?'
        ∙ ap (◌++◌ (address cs)) (
            drop_last-cons b'?' (option_string b'&' (o ∷ os)) (option_string-ne-nil b'&' o os)
            ∙ ap (◌∷◌ b'?') (drop_last-option_string b'&' o os))

-- A driver's name is read whatever the case of its letters.
pub parse_driver-to_lower : (s : Text) → parse_driver (to_lower s) ≡ parse_driver s
unfolding parse_driver
parse_driver-to_lower s = rw (to_lower_idempotent s) refl
