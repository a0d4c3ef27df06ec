-- ===== src/Supervisor/Backoff.antt =====
-- `backoff_for` of lib.rs: how long a failed job waits for its next attempt.
-- FNV-1a, on 64 bits.
use Prim.Native.Nat.{bit_xor}
use tarsk.Base.{
  Option, Text, [], if◌then◌else◌, min, none, some, text, text_eq, ℕ, ◌*◌, ◌-◌, ◌/◌, ◌==◌, ◌^◌, ◌∷◌,
}
use tarsk.Broker.{u32, u64}
use tarsk.Supervisor.{Spec}
use tarsk.Base.Float.{Float, as_secs_f64}

unfoldable pub fnv : ℕ → Text → ℕ
fnv hash [] = hash
fnv hash (byte ∷ seed) = fnv (u64 (bit_xor hash byte * 1099511628211)) seed

abbrev second : ℕ
second = 1000000000

module _ (fl : Float) where
  open fl use {F64, of_ℕ, add, mul, div, from_secs_f64}

  -- `Duration::mul_f64`, of the standard library: `from_secs_f64(rhs * self.as_secs_f64())`.
  abbrev pub mul_f64 : ℕ → F64 → ℕ
  mul_f64 d factor = from_secs_f64 (mul factor (as_secs_f64 fl d))

  abbrev pub half : F64
  half = div (of_ℕ 1) (of_ℕ 2)

  abbrev pub jittered : ℕ → Text → ℕ
  jittered full seed =
      let fraction = div (of_ℕ (fnv 14695981039346656037 seed / 2 ^ 11)) (of_ℕ (2 ^ 53)) in
      mul_f64 full (add half (mul fraction half))

  -- The wait before jitter; `none` for no wait.
  unfoldable pub full_wait : Option Text → (attempt : ℕ) → Option ℕ
  full_wait backoff attempt =
      let exponential = some (u32 (2 ^ min (attempt - 1) 6) * second) in
      elim backoff [
        | none ↦ exponential
        | some word ↦
            if word == text "none"
            then none
            else if word == text "fixed"
            then some second
            else exponential
      ]

  unfoldable pub backoff_for : Option (Spec fl) → (attempt : ℕ) → (seed : Text) → ℕ
  unfolding full_wait
  backoff_for spec attempt seed =
      elim (full_wait (elim spec [ none ↦ none | some sp ↦ some sp.backoff ]) attempt) [
        | none ↦ 0
        | some full ↦ jittered full seed
      ]
