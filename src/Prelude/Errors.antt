-- ===== src/Prelude/Errors.antt =====
-- Exceptions as values: the exception classes that the code raises, with their messages, and
-- calls that read and write a state and may raise.
use Prim.Native.String.{String}
use mathlib.Core.Path.{◌≡◌, refl}
use mathlib.Core.Logic.{◌⊎◌, inl, inr}
use mathlib.Core.Bool.{Bool, true, false}

-- `ValueError`, `KeyError`, `IndexError`, `RuntimeError`, `OverflowError`, the classes of foundation/errors.py,
-- that of the providers' budget, the database driver's error for a violated
-- constraint, and `decimal.InvalidOperation`.
pub data Error : Type 0 where
  value_error key_error index_error runtime_error overflow_error : String → Error
  authorization_error policy_denied integrity_violation : String → Error
  idempotency_conflict external_effect_unknown quarantine_required : String → Error
  provider_budget_exceeded : String → Error
  database_error : String → Error
  invalid_operation : Error

pub data Result {ℓ} (A : Type ℓ) : Type ℓ where
  ok : A → Result A
  err : Error → Result A

-- `if condition: raise error`
abbrev pub raise_if : Bool → Error → Result (Unit {0})
raise_if false error = ok tt
raise_if true error = err error

-- A statement, then the rest of the body, which a raise skips.
module _ {ℓ κ} {A : Type ℓ} {B : Type κ} where
  infixl 5 ◌>>=◌ ◌>>◌
  abbrev pub ◌>>=◌ : Result A → (A → Result B) → Result B
  err error >>= rest = err error
  ok value >>= rest = rest value

  abbrev pub ◌>>◌ : Result A → Result B → Result B
  body >> rest = body >>= λ done. rest

pub Result-cases {ℓ} :
    {A : Type ℓ} (m : Result A) → ((a : A) × (m ≡ ok a)) ⊎ ((e : Error) × (m ≡ err e))
Result-cases (ok a) = inl (a, refl)
Result-cases (err e) = inr (e, refl)
