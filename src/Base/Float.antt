-- ===== src/Base/Float.antt =====
-- `f64` of the source, as the type and the operations that the code calls. The language has no
-- floats; what a property needs of IEEE arithmetic is a named hypothesis of that property.
use Prim.Native.Nat.{ℕ, ◌/◌, ◌%◌}
use mathlib.Core.Bool.{Bool}

pub record Float : Type 1 where
  pub F64 : Type 0
  pub of_ℕ : ℕ → F64
  pub add : F64 → F64 → F64
  pub sub : F64 → F64 → F64
  pub mul : F64 → F64 → F64
  pub div : F64 → F64 → F64
  pub min_of : F64 → F64 → F64
  pub leq : F64 → F64 → Bool
  pub less : F64 → F64 → Bool
  pub ceil : F64 → ℕ
  -- `Duration::from_secs_f64`, in nanoseconds.
  pub from_secs_f64 : F64 → ℕ

-- `Duration::as_secs_f64`: whole seconds, and the rest of the nanoseconds over 10^9.
unfoldable pub as_secs_f64 : (fl : Float) → ℕ → fl.F64
as_secs_f64 fl ns =
    fl.add (fl.of_ℕ (ns / 1000000000)) (fl.div (fl.of_ℕ (ns % 1000000000)) (fl.of_ℕ 1000000000))
