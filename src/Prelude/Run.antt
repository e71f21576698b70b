-- ===== src/Prelude/Run.antt =====
-- Code that may throw, and the conditions on a run.
use serverlib.Prelude.{◌≡◌, refl, ◌⊎◌, inl, inr}

-- The exceptions that the code lets escape, what is undefined (an access outside an array, through
-- a pointer that was never set or a null pointer, a division by zero), and the model's own end of fuel.
pub data Fault : Type 0 where
  out_of_range bad_alloc out_of_bounds unset_pointer null_pointer division_by_zero out_of_fuel :
      Fault

-- A run that ended by itself, or was cut short.
pub data Run {ℓ} (Result : Type ℓ) : Type ℓ where
  fault : Fault → Run Result
  ok : Result → Run Result

module _ {ℓ κ} {A : Type ℓ} where
  infixl 5 ◌>>=◌
  abbrev pub ◌>>=◌ : {B : Type κ} → Run A → (A → Run B) → Run B
  fault why >>= next = fault why
  ok value >>= next = next value

  -- The run ends by itself, in a value that satisfies `P`.
  abbrev pub Returns : Run A → (A → Type κ) → Type (ℓ ⊔ κ)
  Returns run P = (value : A) × (run ≡ ok value) × P value

pub Run-cases {ℓ} :
    {A : Type ℓ} (run : Run A)
    → ((value : A) × (run ≡ ok value)) ⊎ ((why : Fault) × (run ≡ fault why))
Run-cases (fault why) = inr (why, refl)
Run-cases (ok value) = inl (value, refl)
