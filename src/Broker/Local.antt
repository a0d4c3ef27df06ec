-- ===== src/Broker/Local.antt =====
-- `LocalCoordination` of broker.rs: rate-limit buckets, concurrency slots and cron ticks of one
-- process. `now` is what `Instant::now()` returns at the head of a function; `read` in
-- `take_token` is the second reading of the clock, which `seen.elapsed()` makes.
pub mod Slots
pub mod Ticks
pub mod Bucket
mod Examples
use tarsk.Base.{
  Bool, Text, [], false, if◌then◌else◌, keep, leb, length, ltb, max, none, pair_eq, some, text_eq,
  true, ℕ, ◌+◌, ◌-◌,
}
use tarsk.Broker.{from_millis}
use tarsk.Metrics.{buckets}
use tarsk.Base.Dict.{Dict, insert, lookup, or_else, remove, set_insert}
use tarsk.Base.Float.{Float, as_secs_f64}
use tarsk.Base.Int.{int_eq, ℤ}

pub record LocalCoordination (fl : Float) : Type 0 where
  pub ticks : Dict (Text × ℤ) (Unit {0})
  pub buckets : Dict Text (fl.F64 × ℕ)
  pub slots : Dict Text (Dict Text ℕ)

-- `retain(|_, deadline| *deadline > now)`
abbrev pub live : ℕ → Dict Text ℕ → Dict Text ℕ
live now held = keep (λ entry. ltb now entry.1) held

-- Tokens after the refill.
abbrev pub refilled : (fl : Float) → fl.F64 → ℕ → ℕ → fl.F64 × ℕ → fl.F64
refilled fl per_sec burst read (tokens, seen) =
    fl.min_of (fl.add tokens (fl.mul (as_secs_f64 fl (read - seen)) per_sec)) (fl.of_ℕ burst)

module _ {fl : Float} where
  open fl use {F64, of_ℕ, sub, mul, div, leq, ceil}

  -- The bucket as `or_insert` leaves it.
  abbrev pub bucket : Text → ℕ → ℕ → LocalCoordination fl → F64 × ℕ
  bucket task burst now c = or_else (of_ℕ burst, now) (lookup task c.buckets)

  pub take_token : Text → F64 → ℕ → (now read : ℕ) → LocalCoordination fl → LocalCoordination fl × ℕ
  take_token task per_sec burst now read c =
      let tokens = refilled fl per_sec burst read (bucket task burst now c) in
      if leq (of_ℕ 1) tokens
      then (record c { buckets = insert task (sub tokens (of_ℕ 1), now) c.buckets }, 0)
      else (
        record c { buckets = insert task (tokens, now) c.buckets },
        ceil (mul (div (sub (of_ℕ 1) tokens) per_sec) (of_ℕ 1000)),
      )

  abbrev pub held_by : Text → LocalCoordination fl → Dict Text ℕ
  held_by task c = or_else [] (lookup task c.slots)

  pub acquire_slot :
      (task job_id : Text)
      → (limit lease_ms now : ℕ) → LocalCoordination fl
      → LocalCoordination fl × Bool
  acquire_slot task job_id limit lease_ms now c =
      let held = live now (held_by task c) in
      if leb limit (length held) then (record c { slots = insert task held c.slots }, false) else (
        record c {
          slots = insert task (insert job_id (now + from_millis (max lease_ms 1)) held) c.slots;
        },
        true,
      )

  pub release_slot : (task job_id : Text) → LocalCoordination fl → LocalCoordination fl
  release_slot task job_id c = elim (lookup task c.slots) [
    | none ↦ c
    | some held ↦ record c { slots = insert task (remove job_id held) c.slots }
  ]

  pub claim_tick : Text → ℤ → LocalCoordination fl → LocalCoordination fl × Bool
  claim_tick name minute c =
      let (ticks, fresh) = set_insert (name, minute) c.ticks in (record c { ticks = ticks }, fresh)
