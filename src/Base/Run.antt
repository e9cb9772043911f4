-- ===== src/Base/Run.antt =====
-- Code that may panic: a value, or a panic that ends the goroutine.
use mathlib.Core.Path.{◌≡◌, refl, ap, fun_ext}

pub data Run {ℓ} (A : Type ℓ) : Type ℓ where
  returns : A → Run A
  panics : Run A

infixl 5 ◌>>=◌
abbrev pub ◌>>=◌ {ℓ κ} : {A : Type ℓ} {B : Type κ} → Run A → (A → Run B) → Run B
returns a >>= f = f a
panics >>= f = panics

pub bind_assoc {ℓ κ μ} :
    {A : Type ℓ} {B : Type κ} {C : Type μ} (m : Run A) (f : A → Run B) (g : B → Run C)
    → (m >>= f >>= g) ≡ (m >>= λ a. f a >>= g)
bind_assoc (returns a) f g = refl
bind_assoc panics f g = refl

-- Two continuations that agree at every value may be exchanged.
pub bind_cong {ℓ κ} :
    {A : Type ℓ} {B : Type κ} (m : Run A) {f g : A → Run B}
    → ((a : A) → f a ≡ g a)
    → (m >>= f) ≡ (m >>= g)
bind_cong m h = ap (λ k. m >>= k) (fun_ext h)

-- Inversion of a bind that returns.
pub >>=-eq-returns {ℓ κ} :
    {S : Type ℓ} {T : Type κ} {end : T} (first : Run S) (next : S → Run T)
    → (first >>= next) ≡ returns end
    → (got : S) × (first ≡ returns got) × (next got ≡ returns end)
>>=-eq-returns panics next h = cc
>>=-eq-returns (returns got) next h = (got, refl, h)
