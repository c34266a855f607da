-- ===== src/Base/Outcome.antt =====
-- What code that may raise returns, with a `do` block for its chains.
use mathlib.Core.Path.{◌≡◌, refl}
use mathlib.Core.Logic.{◌⊎◌, inl, inr}
use mathlib.Core.Bool.{Bool, true, false}

-- Python's exceptions, as far as the modelled code raises or catches them.
pub data Error : Type 0 where
  value_error zero_division key_error runtime_error os_error malformed_response content_not_found
        archive_error :
      Error

pub data Result {ℓ} (A : Type ℓ) : Type ℓ where
  ok : A → Result A
  err : Error → Result A

pub Result-cases {ℓ} :
    {A : Type ℓ} (r : Result A) → ((a : A) × (r ≡ ok a)) ⊎ ((e : Error) × (r ≡ err e))
Result-cases (ok a) = inl (a, refl)
Result-cases (err e) = inr (e, refl)

-- Raises `e` unless the test holds.
abbrev pub guard : (test : Bool) (e : Error) → Result (Unit {0})
guard false e = err e
guard true e = ok tt

-- What follows a step that may raise.
infixl 5 ◌>>=◌
abbrev pub ◌>>=◌ {ℓ κ} :
    {A : Type ℓ} {B : Type κ} (step : Result A) (next : A → Result B) → Result B
err raised >>= next = err raised
ok value >>= next = next value

infixl 5 ◌>>◌
abbrev pub ◌>>◌ {ℓ} : {B : Type ℓ} (step : Result (Unit {0})) (next : Result B) → Result B
step >> next = step >>= (λ done. next)

-- A chain that does not raise: its first step gave a value, and the rest is that of the value.
pub >>=-eq-ok {ℓ κ} :
    {A : Type ℓ} {B : Type κ} (step : Result A) (next : A → Result B) {b : B}
    → (step >>= next) ≡ ok b
    → (value : A) × (step ≡ ok value) × (next value ≡ ok b)
>>=-eq-ok (err raised) next given = cc
>>=-eq-ok (ok value) next given = (value, refl, given)
