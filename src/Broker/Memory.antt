-- ===== src/Broker/Memory.antt =====
-- `MemoryBroker` of broker.rs. Each reading of a clock is an argument: `now` is `Instant::now()`
-- in nanoseconds, `wall_ms` is `now_ms()`. A mutex is held for the whole of what it guards, and a
-- method is one step. Sums of an `Instant` and a `Duration` are taken not to overflow.
pub mod Queue
pub mod Store
pub mod System
pub mod Settling
mod Examples
use mathlib.Core.Option
use tarsk.Base.{
  Bool, List, Option, Text, [], if◌then◌else◌, keep, leb, ltb, map, nat_eq, none, some, text_eq,
  true, ℕ, ◌++◌, ◌+◌, ◌==◌, ◌∷◌,
}
use tarsk.Broker.{Delivery, NewJob, as_millis, from_millis, memory, u32, u64}
use tarsk.Metrics.{buckets}
use tarsk.Base.Dict.{Dict, contains_key, insert, lookup, remove}
use tarsk.Base.Float.{Float}
use tarsk.Broker.Local.{LocalCoordination}

-- A job, how often it was claimed, and when it became runnable.
pub record Held : Type 0 where
  pub job : NewJob
  pub attempts : ℕ
  pub ready_ms : ℕ

pub record MemoryBroker (fl : Float) : Type 0 where
  pub ready : List (ℕ × Option ℕ)
  pub jobs : Dict ℕ Held
  pub next_id : ℕ
  pub results : Dict Text (Text × ℕ)
  pub revoked_until : Dict Text ℕ
  pub local : LocalCoordination fl

unfoldable pub empty_broker : (fl : Float) → MemoryBroker fl
empty_broker fl = record {
  ready = [];
  jobs = [];
  next_id = 0;
  results = [];
  revoked_until = [];
  local = record { ticks = []; buckets = []; slots = [] };
}

-- `(!delay.is_zero()).then(|| Instant::now() + delay)`
abbrev pub due_after : ℕ → ℕ → Option ℕ
due_after delay now = if delay == 0 then none else some (now + delay)

-- `due.is_none_or(|d| d <= now)`
abbrev pub is_due : ℕ → Option ℕ → Bool
is_due now none = true
is_due now (some d) = leb d now

-- `position` and `remove`: the first entry that is due, and the queue without it.
pub take_due : ℕ → List (ℕ × Option ℕ) → Option (ℕ × List (ℕ × Option ℕ))
take_due now [] = none
take_due now ((id, due) ∷ ready) =
    let later = Option.map (λ found. (found.0, (id, due) ∷ found.1)) (take_due now ready) in
    if is_due now due then some (id, ready) else later

abbrev pub delivery : (Acker : Type 0) → ℕ → Held → Delivery Acker
delivery Acker id held = record {
  id = held.job.id;
  chain = held.job.chain;
  meta = held.job.meta;
  name = held.job.name;
  payload = held.job.payload;
  attempt = held.attempts;
  receipt = memory id;
  ready_at_ms = held.ready_ms;
  expires_ms = held.job.expires_ms;
}

module _ {fl : Float} where
  pub revoke : Text → (ttl_ms now : ℕ) → MemoryBroker fl → MemoryBroker fl
  revoke id ttl_ms now b = record b {
    revoked_until = insert id (now + from_millis ttl_ms) b.revoked_until;
  }

  pub revoked : ℕ → MemoryBroker fl → MemoryBroker fl × List Text
  revoked now b =
      let held = keep (λ entry. ltb now entry.1) b.revoked_until in
      (record b { revoked_until = held }, map (λ entry. entry.0) held)

  pub push : NewJob → (delay now wall_ms : ℕ) → MemoryBroker fl → MemoryBroker fl
  push job delay now wall_ms b = record b {
    next_id = u64 (b.next_id + 1);
    jobs =
        insert b.next_id
          (record { job = job; attempts = 0; ready_ms = u64 (wall_ms + u64 (as_millis delay)) })
          b.jobs;
    ready = b.ready ++ (b.next_id, due_after delay now) ∷ [];
  }

  -- The second half of `claim`, for the entry that was removed from the queue.
  deliver : (Acker : Type 0) → ℕ → MemoryBroker fl → MemoryBroker fl × Option (Delivery Acker)
  deliver Acker id b = elim (lookup id b.jobs) [
    | none ↦ (b, none)
    | some held ↦
        let counted = record held { attempts = u32 (held.attempts + 1) } in
        (record b { jobs = insert id counted b.jobs }, some (delivery Acker id counted))
  ]

  pub claim : (Acker : Type 0) → ℕ → MemoryBroker fl → MemoryBroker fl × Option (Delivery Acker)
  unfolding deliver
  claim Acker now b = elim (take_due now b.ready) [
    | none ↦ (b, none)
    | some (id, rest) ↦ deliver Acker id (record b { ready = rest })
  ]

  unfoldable pub store_result : (id blob : Text) → (ttl now : ℕ) → MemoryBroker fl → MemoryBroker fl
  store_result id blob ttl now b = record b { results = insert id (blob, now + ttl) b.results }

  pub get_result : Text → ℕ → MemoryBroker fl → MemoryBroker fl × Option Text
  get_result id now b = elim (lookup id b.results) [
    | none ↦ (b, none)
    | some (blob, expiry) ↦
        if leb expiry now
        then (record b { results = remove id b.results }, none)
        else (b, some blob)
  ]

  unfoldable pub settle : ℕ → MemoryBroker fl → MemoryBroker fl
  settle id b = record b { jobs = remove id b.jobs }

  unfoldable pub requeue : ℕ → (delay now : ℕ) → MemoryBroker fl → MemoryBroker fl
  requeue id delay now b =
      if contains_key id b.jobs
      then record b { ready = b.ready ++ (id, due_after delay now) ∷ [] }
      else b
