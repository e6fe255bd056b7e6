-- ===== src/Prelude/Errors.antt =====
-- The Go pair (value, error) of a call: a value where the error is nil, and the error otherwise.
use mathlib.Core.Bool.{Bool, true, false}

pub data Error : Type 0 where
  -- a statement that the engine could not run: busy, disconnected, cancelled
  io : Error
  -- a PRIMARY KEY or UNIQUE constraint
  unique_violation : Error
  -- a REFERENCES constraint
  foreign_key_violation : Error
  -- a statement that the engine's grammar refuses
  syntax : Error
  -- a value that does not parse
  malformed : Error

pub data Result {ℓ} (A : Type ℓ) : Type ℓ where
  ok : A → Result A
  err : Error → Result A

abbrev pub is_ok {ℓ} : {A : Type ℓ} → Result A → Bool
is_ok (ok a) = true
is_ok (err e) = false
