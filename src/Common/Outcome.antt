-- ===== src/Common/Outcome.antt =====
-- What a call comes to. `failed` is a NULL or false that the code returns, `fault` is behaviour
-- that C leaves undefined (a read out of range, a wrong member of a union) or a failed assertion,
-- and `out_of_fuel` stands for a loop that has not ended within the model's fuel.
use mathlib.Core.Path.{◌≡◌, refl}
use mathlib.Core.Option.{Option, none, some}

pub data Outcome {ℓ} (A : Type ℓ) : Type ℓ where
  ok : A → Outcome A
  failed fault out_of_fuel : Outcome A

infixl 5 ◌>>=◌
abbrev pub ◌>>=◌ {ℓ κ} : {A : Type ℓ} {B : Type κ} → Outcome A → (A → Outcome B) → Outcome B
out_of_fuel >>= k = out_of_fuel
fault >>= k = fault
failed >>= k = failed
ok x >>= k = k x

-- a read that is undefined out of range
abbrev pub of_option {ℓ} : {A : Type ℓ} → Option A → Outcome A
of_option none = fault
of_option (some a) = ok a

-- A chain that comes to a value has come to one at its first call.
pub >>=-eq-ok {ℓ κ} :
    {A : Type ℓ} {B : Type κ} {y : B} (call : Outcome A) (k : A → Outcome B)
    → (call >>= k) ≡ ok y
    → (x : A) × (call ≡ ok x) × (k x ≡ ok y)
>>=-eq-ok out_of_fuel k e = cc
>>=-eq-ok fault k e = cc
>>=-eq-ok failed k e = cc
>>=-eq-ok (ok x) k e = (x, refl, e)

pub ok-injective {ℓ} : {A : Type ℓ} {a b : A} → ok a ≡ ok b → a ≡ b
ok-injective h = cc
