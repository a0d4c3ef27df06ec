-- ===== src/Base/Results.antt =====
-- `Res<T>` of broker.rs: a value, or an error that the callers only test for.
use mathlib.Core.Bool.{Bool, true, false}

pub data Res {ℓ} (A : Type ℓ) : Type ℓ where
  ok : A → Res A
  err : Res A

abbrev pub is_err {ℓ} : {A : Type ℓ} → Res A → Bool
is_err (ok a) = false
is_err err = true
