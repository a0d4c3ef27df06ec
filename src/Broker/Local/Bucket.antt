-- ===== src/Broker/Local/Bucket.antt =====
-- The rate-limit buckets of `LocalCoordination`.
use tarsk.Base.{Text, arith, beq_refl, text_eq, true, ℕ, ◌-◌, ◌≡◌}
use tarsk.Base.Dict.{lookup-insert}
use tarsk.Base.Float.{Float, as_secs_f64}
use tarsk.Broker.Local.{LocalCoordination, bucket, refilled, take_token}

module _ {fl : Float} where
  open fl use {F64, of_ℕ, add, sub, mul, div, min_of, leq, less, ceil}

  -- A bucket never holds more than its burst. The hypotheses are facts of IEEE arithmetic on
  -- numbers that are not NaN: `min` is below its second argument, and one token less is less.
  take_token-le-burst :
      ((a b : F64) → leq (min_of a b) b ≡ true)
      → ((a b : F64) → leq a b ≡ true → leq (sub a (of_ℕ 1)) b ≡ true)
      → (task : Text) (per_sec : F64) (burst now read : ℕ) (c : LocalCoordination fl)
      → leq (bucket task burst now (take_token task per_sec burst now read c).0).0 (of_ℕ burst)
        ≡ true
  unfolding take_token
  take_token-le-burst below less_one task per_sec burst now read c =
      let held = refilled fl per_sec burst read (bucket task burst now c) in
      ground (
        arith,
        lookup-insert task task (held, now) c.buckets,
        lookup-insert task task (sub held (of_ℕ 1), now) c.buckets,
        beq_refl task,
        below
            (add (bucket task burst now c).0
              (mul (as_secs_f64 fl (read - (bucket task burst now c).1)) per_sec))
            (of_ℕ burst),
        less_one held (of_ℕ burst),
      )
