-- ===== src/Base/Result.antt =====
-- Go's pair of a value and an error: one or the other, with the error's type as a parameter.
use mathlib.Core.Path.{◌≡◌, refl}
use mathlib.Core.Logic.{◌⊎◌, inl, inr}
use mathlib.Core.Option.{Option, none, some}

pub data Result {ℓ} (E : Type 0) (A : Type ℓ) : Type ℓ where
  err : E → Result E A
  ok : A → Result E A

infixl 5 ◌>>=◌
abbrev pub ◌>>=◌ {ℓ κ} :
    {E : Type 0} {A : Type ℓ} {B : Type κ} → Result E A → (A → Result E B) → Result E B
err failure >>= next = err failure
ok got >>= next = next got

-- The error `e` where a call gives nothing.
abbrev pub or_fail {ℓ} : {E : Type 0} {A : Type ℓ} → E → Option A → Result E A
or_fail e none = err e
or_fail e (some a) = ok a

-- The error of a call, wrapped.
abbrev pub wrap_error {ℓ} : {E F : Type 0} {A : Type ℓ} → (E → F) → Result E A → Result F A
wrap_error f (err e) = err (f e)
wrap_error f (ok a) = ok a

pub Result-cases {ℓ} :
    {E : Type 0} {A : Type ℓ} (r : Result E A) → ((e : E) × (r ≡ err e)) ⊎ ((a : A) × (r ≡ ok a))
Result-cases (err e) = inl (e, refl)
Result-cases (ok a) = inr (a, refl)

pub err-ne-ok {ℓ} : {E : Type 0} {A : Type ℓ} {e : E} {a : A} → err e ≡ ok a → ⊥
err-ne-ok h = cc

pub ok_inj {ℓ} : {E : Type 0} {A : Type ℓ} {a b : A} → ◌≡◌ {A = Result E A} (ok a) (ok b) → a ≡ b
ok_inj h = cc

-- Inversion of a chain that gives a value.
pub >>=-eq-ok {ℓ κ} :
    {E : Type 0} {S : Type ℓ} {T : Type κ} {end : T} (first : Result E S) (next : S → Result E T)
    → (first >>= next) ≡ ok end
    → (got : S) × (first ≡ ok got) × (next got ≡ ok end)
>>=-eq-ok (err failure) next h = cc
>>=-eq-ok (ok got) next h = (got, refl, h)

pub err_inj {ℓ} : {E : Type 0} {A : Type ℓ} {e f : E} → ◌≡◌ {A = Result E A} (err e) (err f) → e ≡ f
err_inj h = cc
