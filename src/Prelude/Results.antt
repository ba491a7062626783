-- ===== src/Prelude/Results.antt =====
-- Go's pair of a value and an error, as a value or an error.
use mathlib.Core.Path.{◌≡◌, refl}
use mathlib.Core.Logic.{◌⊎◌, inl, inr}

pub data Result {ε ℓ} (Error : Type ε) (Value : Type ℓ) : Type (ε ⊔ ℓ) where
  err : Error → Result Error Value
  ok : Value → Result Error Value

-- The early return of an error.
infixl 5 ◌>>=◌
abbrev pub ◌>>=◌ {ε ℓ κ} :
    {Error : Type ε} {Value : Type ℓ} {Next : Type κ}
    → Result Error Value
    → (Value → Result Error Next)
    → Result Error Next
err fault >>= go_on = err fault
ok value >>= go_on = go_on value

-- A chain that succeeds has a first step that succeeds.
module _ {ε ℓ κ} {Error : Type ε} {Value : Type ℓ} {Next : Type κ} where
  pub >>=-eq-ok :
      (first : Result Error Value) (go_on : Value → Result Error Next) {last : Next}
      → (first >>= go_on) ≡ ok last
      → (value : Value) × (first ≡ ok value) × (go_on value ≡ ok last)
  >>=-eq-ok (err fault) go_on chained = cc
  >>=-eq-ok (ok value) go_on chained = (value, refl, chained)

pub Result-cases {ε ℓ} :
    {Error : Type ε} {Value : Type ℓ} (r : Result Error Value)
    → ((value : Value) × (r ≡ ok value)) ⊎ ((fault : Error) × (r ≡ err fault))
Result-cases (err fault) = inr (fault, refl)
Result-cases (ok value) = inl (value, refl)
