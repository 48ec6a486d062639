-- ===== src/Common/Fallible.antt =====
-- The outcome of fallible code.
use mathlib.Core.Path.{◌≡◌, refl}

-- `error` is an `NGX_ERROR` or a NULL result, `fault` a read of memory that the code never wrote
-- (undefined in C), and `out_of_fuel` is reported by a loop that was given too few rounds.
pub data Outcome {ℓ} (A : Type ℓ) : Type ℓ where
  ok : A → Outcome A
  error fault out_of_fuel : Outcome A

infixl 5 ◌>>=◌
abbrev pub ◌>>=◌ {ℓ κ} : {A : Type ℓ} {B : Type κ} → Outcome A → (A → Outcome B) → Outcome B
ok a >>= f = f a
error >>= f = error
fault >>= f = fault
out_of_fuel >>= f = out_of_fuel

-- The code did not run out of fuel.
abbrev pub IsDone {ℓ} : {A : Type ℓ} → Outcome A → Type 0
IsDone out_of_fuel = ⊥
IsDone _ = Unit

-- A sequence is done if its parts are.
pub >>=-IsDone {ℓ κ} :
    {A : Type ℓ} {B : Type κ} (m : Outcome A) (f : A → Outcome B)
    → IsDone m
    → ((a : A) → m ≡ ok a → IsDone (f a))
    → IsDone (m >>= f)
>>=-IsDone (ok a) f h k = k a refl
>>=-IsDone error f h k = tt
>>=-IsDone fault f h k = tt
>>=-IsDone out_of_fuel f h k = absurd h

-- The code returned with a value or an error.
abbrev pub IsRegular {ℓ} : {A : Type ℓ} → Outcome A → Type 0
IsRegular (ok a) = Unit
IsRegular error = Unit
IsRegular _ = ⊥
