-- ===== src/Base/Run.antt =====
-- Code that can break a rule of the machine: the fault is a value, and ends the run.
use mathlib.Core.Path.{◌≡◌}

-- A read through a null or freed pointer, a spin lock taken twice by one task, and a spin lock
-- released by a task that does not hold it.
pub data Fault : Type 0 where
  null_pointer dangling self_deadlock not_held : Fault

-- A run stops at a fault, or ends in a value.
pub data Run {ℓ} (Value : Type ℓ) : Type ℓ where
  fault : (reason : Fault) → Run Value
  ok : (value : Value) → Run Value

module _ {ℓ κ} {A : Type ℓ} where
  infixl 5 ◌>>=◌
  abbrev pub ◌>>=◌ : {B : Type κ} → Run A → (A → Run B) → Run B
  fault reason >>= next = fault reason
  ok value >>= next = next value

  -- No fault, and a value with the property.
  abbrev pub Returns : Run A → (A → Type κ) → Type (ℓ ⊔ κ)
  Returns run P = (value : A) × (run ≡ ok value) × P value
