-- ===== src/Prelude/Outcomes.antt =====
-- The outcome of a fallible call: a value, the `Err` of a `Result`, or a panic of an `assert!`, an
-- `unwrap` or an index out of bounds.
use mathlib.Core.Path.{◌≡◌, refl, ap}
use mathlib.Core.Logic.{◌⊎◌, inl, inr}
use mathlib.Core.Bool.{Bool, true, false}
use mathlib.Core.Option.{Option, none, some}

-- The variants of `Error`, `DKGError`, `ResharingError` and `DieselError` without their texts; the
-- step that `Other` or a boxed error reports is kept where the code distinguishes it by the text alone.
pub data Error : Type 0 where
  invalid_input invalid_signature unhashable invalid_dleq_proof unknown_error : Error
  rsa_error key_generation_failed vss_not_verified key_not_found group_key_mismatch : Error
  invalid_parameters not_a_scalar decode_failed database_failed call_failed : Error

pub data Outcome {ℓ} (A : Type ℓ) : Type ℓ where
  ok : A → Outcome A
  err : Error → Outcome A
  panic : Outcome A

-- What follows a call runs on its value, and an error or a panic is passed on.
infixl 5 ◌>>◌ ◌>>=◌
abbrev pub ◌>>=◌ {ℓ₁ ℓ₂} : {X : Type ℓ₁} {Y : Type ℓ₂} → Outcome X → (X → Outcome Y) → Outcome Y
panic >>= next = panic
err reason >>= next = err reason
ok x >>= next = next x

abbrev pub ◌>>◌ {ℓ₁} : {Y : Type ℓ₁} → Outcome (Unit {0}) → Outcome Y → Outcome Y
first >> second = first >>= (λ _. second)

-- `assert!`
abbrev pub assert : Bool → Outcome (Unit {0})
assert true = ok tt
assert false = panic

-- `if !test { return Err(e) }`
abbrev pub ensure : Bool → Error → Outcome (Unit {0})
ensure true e = ok tt
ensure false e = err e

-- `unwrap`
abbrev pub unwrap {ℓ} : {A : Type ℓ} → Option A → Outcome A
unwrap (some a) = ok a
unwrap none = panic

-- `expect` on a `Result`
abbrev pub expect {ℓ} : {A : Type ℓ} → Outcome A → Outcome A
expect (ok a) = ok a
expect (err e) = panic
expect panic = panic

-- `ok_or`
abbrev pub ok_or {ℓ} : {A : Type ℓ} → Error → Option A → Outcome A
ok_or e (some a) = ok a
ok_or e none = err e

-- `map_err`, where the new error does not depend on the old one.
abbrev pub map_err {ℓ} : {A : Type ℓ} → Error → Outcome A → Outcome A
map_err e (ok a) = ok a
map_err e (err _) = err e
map_err e panic = panic

-- The value of a successful bind comes from values of both parts.
pub >>=-eq-ok {ℓ₁ ℓ₂} :
    {X : Type ℓ₁} {Y : Type ℓ₂} {y : Y} (call : Outcome X) (next : X → Outcome Y)
    → (call >>= next) ≡ ok y
    → (x : X) × (call ≡ ok x) × (next x ≡ ok y)
>>=-eq-ok panic next h = cc
>>=-eq-ok (err reason) next h = cc
>>=-eq-ok (ok x) next h = (x, refl, h)

-- An outcome is a value, an error or a panic.
pub Outcome-cases {ℓ} :
    {A : Type ℓ} (o : Outcome A)
    → ((a : A) × (o ≡ ok a)) ⊎ (((e : Error) × (o ≡ err e)) ⊎ (o ≡ panic))
Outcome-cases (ok a) = inl (a, refl)
Outcome-cases (err e) = inr (inl (e, refl))
Outcome-cases panic = inr (inr refl)

from_ok {ℓ} : {A : Type ℓ} → A → Outcome A → A
from_ok d (ok a) = a
from_ok d (err e) = d
from_ok d panic = d

pub ok_injective {ℓ} : {A : Type ℓ} {a b : A} → ok a ≡ ok b → a ≡ b
unfolding from_ok
ok_injective {a} h = ap (from_ok a) h
