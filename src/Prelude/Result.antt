-- ===== src/Prelude/Result.antt =====
-- error.rs: `AppError` by its variants, and `AppResult`.
use mathlib.Core.Path.{◌≡◌, refl}
use mathlib.Core.Logic.{◌⊎◌, inl, inr}

pub data Result {ℓ κ} (E : Type κ) (A : Type ℓ) : Type (ℓ ⊔ κ) where
  ok : A → Result E A
  err : E → Result E A

infixl 5 ◌>>◌ ◌>>=◌
-- `?`: what follows runs on the value, an error ends the chain.
abbrev pub ◌>>=◌ {α β ε} :
    {A : Type α} {E : Type ε} {B : Type β} → Result E A → (A → Result E B) → Result E B
err e >>= next = err e
ok a >>= next = next a

-- `?` on a step that gives nothing.
abbrev pub ◌>>◌ {β ε} : {E : Type ε} {B : Type β} → Result E (Unit {0}) → Result E B → Result E B
first >> second = first >>= λ done. second

pub ok-injective {ℓ κ} :
    {E : Type κ} {A : Type ℓ} {a b : A} → ◌≡◌ {A = Result E A} (ok a) (ok b) → a ≡ b
ok-injective h = cc

-- To split on a computed result and keep the equation.
pub Result-cases {ℓ κ} :
    {E : Type κ} {A : Type ℓ} (r : Result E A) → ((a : A) × (r ≡ ok a)) ⊎ ((e : E) × (r ≡ err e))
Result-cases (ok a) = inl (a, refl)
Result-cases (err e) = inr (e, refl)

-- What came before, if a chain succeeded.
pub >>=-eq-ok {α β ε} :
    {E : Type ε} {A : Type α} {B : Type β} {b : B} (first : Result E A) (next : A → Result E B)
    → (first >>= next) ≡ ok b
    → (a : A) × (first ≡ ok a) × (next a ≡ ok b)
>>=-eq-ok (err e) next h = cc
>>=-eq-ok (ok a) next h = (a, refl, h)
