-- ===== src/Prelude/Results.antt =====
-- `Result<A, E>` and the `?` operator as a bind, and the same for `Option`.
use mathlib.Core.Path.{◌≡◌, refl}
use mathlib.Core.Logic.{◌⊎◌, inl, inr}
use mathlib.Core.Bool.{Bool, true, false}
use mathlib.Core.Option.{Option, none, some}

-- The error type comes first, so that `Result Fault` is a family in the value.
pub data Result {ε ν} (Fault : Type ε) (Value : Type ν) : Type (ε ⊔ ν) where
  err : Fault → Result Fault Value
  ok : Value → Result Fault Value

module _ {ε ν ω} {Fault : Type ε} {Value : Type ν} {Next : Type ω} where
  infixl 5 ◌>>=◌
  abbrev pub ◌>>=◌ : Result Fault Value → (Value → Result Fault Next) → Result Fault Next
  err fault >>= next = err fault
  ok value >>= next = next value

module _ {ℓ κ} {E : Type ℓ} {A : Type κ} where
  -- `ok_or`
  abbrev pub ok_or : Option A → E → Result E A
  ok_or (some a) e = ok a
  ok_or none e = err e

  abbrev pub is_ok : Result E A → Bool
  is_ok (ok a) = true
  is_ok (err e) = false

  -- `Result::ok`
  abbrev pub to_option : Result E A → Option A
  to_option (ok a) = some a
  to_option (err e) = none

-- `Option::and_then`, and `?` on an `Option`.
abbrev pub and_then {ℓ κ} : {A : Type ℓ} {B : Type κ} → Option A → (A → Option B) → Option B
and_then none f = none
and_then (some a) f = f a

-- `Option::or_else` and `unwrap_or`.
module _ {ℓ} {A : Type ℓ} where
  abbrev pub or_else : Option A → Option A → Option A
  or_else none b = b
  or_else (some a) b = some a

  abbrev pub unwrap_or : Option A → A → A
  unwrap_or none d = d
  unwrap_or (some a) d = a

  abbrev pub is_some : Option A → Bool
  is_some none = false
  is_some (some a) = true

-- Inversion of a bind that succeeds.
module _ {ε ν ω} {Fault : Type ε} {Value : Type ν} {Next : Type ω} where
  pub >>=-eq-ok :
      (first : Result Fault Value) (next : Value → Result Fault Next) {last : Next}
      → first >>= next ≡ ok last
      → (value : Value) × (first ≡ ok value) × (next value ≡ ok last)
  >>=-eq-ok (err fault) next done = cc
  >>=-eq-ok (ok value) next done = (value, refl, done)

pub Result-cases {ℓ κ} :
    {E : Type ℓ} {A : Type κ} (r : Result E A) → ((a : A) × (r ≡ ok a)) ⊎ ((e : E) × (r ≡ err e))
Result-cases (ok a) = inl (a, refl)
Result-cases (err e) = inr (e, refl)
