-- ===== src/Supervisor.antt =====
-- The supervisor (crates/tarsk-core/src/lib.rs): what it shares between its tasks, and what it asks
-- of a broker. A function of the source that changes `Shared` returns the new one. Each atomic is a
-- field; the waits and wake-ups of `Notify` order the steps of tasks and are no state.
pub mod Backoff
mod Examples
pub mod Settle
pub mod Gates
pub mod Dispatch
pub mod Checking
pub mod Serve
pub mod Loop
pub mod Draining
pub mod Slot
pub mod Ledger
pub mod Background
pub mod Finishing
pub mod Register
pub mod Ticking
pub mod InMemory
use tarsk.Base.{
  Bool, List, Option, Res, Text, [], false, if◌then◌else◌, is_empty, is_err, keep, leb, length,
  nat_eq, none, not, some, text_eq, true, ℕ, ◌+◌,
}
use tarsk.Broker.{Delivery, Depth, NewJob, Receipt, u64}
use tarsk.Ceiling.{Learned, Reason}
use tarsk.Metrics.{Metrics}
use tarsk.Wire.{Directive, policy}
use tarsk.Base.Decimal.{decimal}
use tarsk.Base.Dict.{Dict, contains_key, insert, lookup}
use tarsk.Base.Float.{Float}
use tarsk.Base.Int.{ℤ}

pub record BrokerApi (fl : Float) : Type 1 where
  -- The broker and everything behind it, its clocks and its failures included.
  pub Store : Type 0
  pub Acker : Type 0
  pub drains_when_empty : Bool
  pub set_prefetch_cap : (children : ℕ) → Store → Store
  pub push : NewJob → (delay : ℕ) → Store → Res (Unit {0}) × Store
  pub claim : (grace block : ℕ) → Store → Res (Option (Delivery Acker)) × Store
  pub ack : Receipt Acker → Store → Res (Unit {0}) × Store
  pub retry : Receipt Acker → (delay : ℕ) → Store → Res (Unit {0}) × Store
  pub dead_letter :
      Receipt Acker → (error traceback : Text) → (keep : ℕ) → Store → Res (Unit {0}) × Store
  pub store_result : (id blob : Text) → (ttl : ℕ) → Store → Res (Unit {0}) × Store
  pub take_token : Text → fl.F64 → (burst : ℕ) → Store → Res ℕ × Store
  pub acquire_slot : (task job_id : Text) → (limit lease_ms : ℕ) → Store → Res Bool × Store
  pub release_slot : (task job_id : Text) → Store → Res (Unit {0}) × Store
  pub claim_tick : Text → ℤ → Store → Res Bool × Store
  pub depth : Store → Res (List Depth) × Store
  pub revoked_all : Store → Res (List Text) × Store
  pub reclaim_expired : (grace : ℕ) → Store → Res ℕ × Store

-- `dispatched` is a reading of the monotonic clock, in nanoseconds.
pub record Job (Acker : Type 0) : Type 0 where
  pub task_id : ℕ
  pub name : Text
  pub payload : Text
  pub attempt : ℕ
  pub id : Text
  pub receipt : Receipt Acker
  pub dispatched : ℕ
  pub ready_at_ms : ℕ
  pub chain : Text
  pub meta : Text
  pub expires_ms : ℕ

pub slot_key : {Acker : Type 0} → Job Acker → Text
slot_key job = if is_empty job.id then decimal job.task_id else job.id

pub record Outcome : Type 0 where
  pub succeeded : Bool
  pub result : Text
  pub error_type : Text
  pub traceback : Text
  pub directive : Directive

abbrev pub nack : (error_type traceback : Text) → Outcome
nack error_type traceback = record {
  succeeded = false;
  result = [];
  error_type = error_type;
  traceback = traceback;
  directive = policy;
}

pub record Spec (fl : Float) : Type 0 where
  pub timeout_ms : ℕ
  pub retries : ℕ
  pub backoff : Text
  pub result_ttl_ms : ℕ
  pub queue : Text
  pub cron : Text
  pub rate_per_sec : fl.F64
  pub rate_burst : ℕ
  pub expires_ms : ℕ
  pub max_concurrency : ℕ

pub record Counters : Type 0 where
  pub rejected : ℕ
  pub spawns : ℕ
  pub recycles : ℕ
  pub prewarmed : ℕ
  pub wasted_spares : ℕ
  pub crashes : ℕ
  pub kills : ℕ
  pub hard_killed : ℕ
  pub retried : ℕ
  pub rate_limited : ℕ
  pub expired : ℕ
  pub chained : ℕ
  pub at_capacity : ℕ
  pub child_rss_peak : ℕ
  pub dead_lettered : ℕ
  pub cron_fired : ℕ
  pub broker_errors : ℕ

-- `waiting` are the child ids for which a slot waits in `conns`.
pub record Shared {fl : Float} (api : BrokerApi fl) : Type 0 where
  pub store : api.Store
  pub results : Dict ℕ Outcome
  pub total : ℕ
  pub next_task_id : ℕ
  pub done : Bool
  pub registry : Option (ℕ × ℕ)
  pub specs : Dict Text (Spec fl)
  pub waiting : List ℕ
  pub exits : List ℤ
  pub fatal : Option Text
  pub next_child_id : ℕ
  pub max_dead : ℕ
  pub revoked : List Text
  pub spawn_ms : ℕ
  pub learned : Learned
  pub counters : Counters
  pub metrics : Metrics
  pub reasons : Dict Reason ℕ

-- `entry(task_id).or_insert(outcome)`
abbrev pub keep_first : ℕ → Outcome → Dict ℕ Outcome → Dict ℕ Outcome
keep_first task_id outcome results =
    if contains_key task_id results then results else insert task_id outcome results

module _ {fl : Float} {api : BrokerApi fl} where
  -- A call of the broker.
  abbrev pub call {ℓ} :
      {A : Type ℓ} → (api.Store → Res A × api.Store) → Shared api → Res A × Shared api
  call operation s = let (answer, store) = operation s.store in (answer, record s { store = store })

  abbrev pub count : (Counters → Counters) → Shared api → Shared api
  count f s = record s { counters = f s.counters }

  abbrev pub count_error : Shared api → Shared api
  count_error = count (λ c. record c { broker_errors = u64 (c.broker_errors + 1) })

  -- A call whose answer only counts as an error or not.
  abbrev pub call_counting : (api.Store → Res (Unit {0}) × api.Store) → Shared api → Shared api
  call_counting operation s =
      let (answer, after) = call operation s in if is_err answer then count_error after else after

  abbrev pub batch : Shared api → Bool
  batch s = api.drains_when_empty

  -- `fail`: the first diagnosis is kept.
  unfoldable pub abandon : Text → Shared api → Shared api
  abandon message s = record s {
    fatal = elim s.fatal [ none ↦ some message | some first ↦ some first ];
    done = true;
  }

  pub record_outcome : ℕ → Outcome → Shared api → Shared api
  record_outcome task_id outcome s =
      let results = keep_first task_id outcome s.results in
      if not (batch s) then s else record s {
        results = results;
        done = if leb s.total (length results) then true else s.done;
      }

  abbrev pub spec_field {ℓ} : {A : Type ℓ} → A → (Spec fl → A) → Text → Shared api → A
  spec_field default f name s = elim (lookup name s.specs) [ none ↦ default | some spec ↦ f spec ]
