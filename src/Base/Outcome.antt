-- ===== src/Base/Outcome.antt =====
-- Runs of C code that may end the process or go wrong.
use mathlib.Core.Path.{◌≡◌}

-- `exit(ATM_ERROR)` after a fatal log line, and the memory faults that the models can meet.
pub data Stop : Type 0 where
  exit_error use_after_free null_dereference division_by_zero out_of_bounds out_of_fuel : Stop

pub data Run {ℓ} (A : Type ℓ) : Type ℓ where
  stop : Stop → Run A
  ok : A → Run A

infixl 5 ◌>>=◌
abbrev pub ◌>>=◌ {ℓ₁ ℓ₂} : {A : Type ℓ₁} → {B : Type ℓ₂} → Run A → (A → Run B) → Run B
stop reason >>= rest = stop reason
ok value >>= rest = rest value

-- The run ends normally, in a value that satisfies `P`.
abbrev pub Returns {ℓ₁ ℓ₂} : {A : Type ℓ₁} (r : Run A) (P : A → Type ℓ₂) → Type (ℓ₁ ⊔ ℓ₂)
Returns {A} r P = (value : A) × (r ≡ ok value) × P value

-- `ATM_FREE_SHALLOW` and `ATM_FREE_DEEP`: whether a container gives its values back too.
pub data FreeType : Type 0 where
  shallow deep : FreeType
