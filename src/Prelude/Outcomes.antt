-- ===== src/Prelude/Outcomes.antt =====
-- How a run of the compiler's code can end.
use Prim.Native.Nat.{ℕ}
use mathlib.Core.Path.{◌≡◌}
use matcc.Prelude.Tests.{Text}

-- The calls of `abort_parsing`, each with the values that its message shows.
pub data Abort : Type 0 where
  already_defined : Text → Abort
  unknown_symbol : Text → Abort
  types_do_not_match : Text → Text → Abort
  multi_dimensional : Abort
  row_size : ℕ → ℕ → Abort
  row_height : ℕ → Abort
  unknown_function : Text → Abort

-- `abort` is `abort_parsing`, which ends the process. `fault` is undefined behaviour: a null or
-- dangling pointer, an index out of bounds, a division by zero. `out_of_fuel` is a loop along a
-- chain of pointers that has not ended within the steps that it was given.
pub data Outcome {ℓ} (A : Type ℓ) : Type ℓ where
  ok : A → Outcome A
  abort : Abort → Outcome A
  fault : Outcome A
  out_of_fuel : Outcome A

infixl 5 ◌>>=◌
abbrev pub ◌>>=◌ {ℓ κ} : {A : Type ℓ} {B : Type κ} → Outcome A → (A → Outcome B) → Outcome B
ok a >>= f = f a
abort e >>= f = abort e
fault >>= f = fault
out_of_fuel >>= f = out_of_fuel

-- The run ends normally, in a value that satisfies `P`.
abbrev pub Returns {ℓ κ} : {A : Type ℓ} → Outcome A → (A → Type κ) → Type (ℓ ⊔ κ)
Returns {A} r P = (a : A) × (r ≡ ok a) × P a
