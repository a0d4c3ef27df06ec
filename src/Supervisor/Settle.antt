-- ===== src/Supervisor/Settle.antt =====
-- How a job ends (`settle`, `fail_job` and what they call, in lib.rs): an answer is filed, the next
-- step of a chain is queued, and the delivery is acked, retried or dead-lettered.
pub mod Exactly
use tarsk.Base.{
  Bool, List, Option, Text, [], err, false, if◌then◌else◌, is_empty, is_err, leb, length, ltb,
  nat_eq, none, not, ok, some, text, text_eq, true, ℕ, ◌&&◌, ◌++◌, ◌+◌, ◌-◌, ◌==◌, ◌∷◌,
}
use tarsk.Broker.{Delivery, NewJob, from_millis, memory, u32, u64}
use tarsk.Metrics.{observe}
use tarsk.Supervisor.{
  BrokerApi, Job, Outcome, Shared, Spec, batch, call, call_counting, count, count_error, nack,
  record_outcome, slot_key, spec_field,
}
use tarsk.Wire.{
  Directive, MessagePack, Value, array, array_of, as_array, as_bool, as_slice, as_str, as_u64,
  binary, boolean, field, items, reject, retry_after, string,
}
use tarsk.Base.Dict.{lookup, or_else}
use tarsk.Base.Float.{Float}
use tarsk.Supervisor.Backoff.{backoff_for}
use tarsk.Wire.Chain.{prepend_result}

-- One step of a chain, `[id, name, payload, timeout_ms, queue, feed]`, and the steps after it.
pub record Step : Type 0 where
  pub id : Text
  pub name : Text
  pub payload : Text
  pub timeout_ms : ℕ
  pub queue : Text
  pub feed : Bool
  pub rest : List Value

read_step : Value → List Value → Option Step
read_step (array vs) rest =
    let f = items vs in
    if ltb (length f) 6
    then none
    else some (record {
      id = or_else [] (field as_str f 0);
      name = or_else [] (field as_str f 1);
      payload = or_else [] (field as_slice f 2);
      timeout_ms = u32 (or_else 0 (field as_u64 f 3));
      queue = or_else (text "default") (field as_str f 4);
      feed = or_else true (field as_bool f 5);
      rest = rest;
    })
read_step _ rest = none

-- The early returns of `advance_chain`: none where the job carries no step that can be read.
unfoldable pub next_step : MessagePack → (chain : Text) → Option Step
unfolding read_step
next_step pack [] = none
next_step pack (c ∷ chain) = elim (pack.read_value (c ∷ chain)) [
  | none ↦ none
  | some v ↦ elim (as_array v) [
    | none ↦ none
    | some steps ↦ elim steps [ [] ↦ none | step ∷ rest ↦ read_step step rest ]
  ]
]

abbrev pub chain_job : MessagePack → Step → (result : Text) → NewJob
chain_job pack step result = record {
  id = step.id;
  queue = step.queue;
  name = step.name;
  payload = if step.feed then prepend_result pack step.payload result else step.payload;
  timeout_ms = step.timeout_ms;
  meta = [];
  expires_ms = 0;
  chain = elim step.rest [ [] ↦ [] | v ∷ vs ↦ or_else [] (pack.write_value (array_of (v ∷ vs))) ];
}

abbrev pub envelope : Outcome → Value
envelope outcome = array_of (
    boolean outcome.succeeded
    ∷ binary outcome.result
    ∷ string outcome.error_type
    ∷ string outcome.traceback
    ∷ [])

abbrev pub retry_delay : (fl : Float) {Acker : Type 0} → Outcome → Option (Spec fl) → Job Acker → ℕ
retry_delay fl outcome spec job = elim outcome.directive [
  | retry_after ms ↦ from_millis ms
  | _ ↦ backoff_for fl spec job.attempt job.id
]

abbrev pub is_reject : Directive → Bool
is_reject reject = true
is_reject _ = false

-- `adopt`: what a delivery becomes when a worker takes it, at `now`.
abbrev pub adopted : {Acker : Type 0} → (task_id now : ℕ) → Delivery Acker → Job Acker
adopted task_id now d = record {
  task_id = task_id;
  name = d.name;
  payload = d.payload;
  attempt = d.attempt;
  id = d.id;
  receipt = d.receipt;
  dispatched = now;
  ready_at_ms = d.ready_at_ms;
  chain = d.chain;
  meta = d.meta;
  expires_ms = d.expires_ms;
}

module _ {fl : Float} {api : BrokerApi fl} where
  abbrev pub result_ttl : Job api.Acker → Shared api → ℕ
  result_ttl job s =
      if is_empty job.id then 0 else spec_field 0 (λ spec. spec.result_ttl_ms) job.name s

  unfoldable pub keep_progress : Job api.Acker → Text → Shared api → Shared api
  keep_progress job blob s =
      let ttl = result_ttl job s in
      if ttl == 0
      then s
      else call_counting (api.store_result (text "progress:" ++ job.id) blob (from_millis ttl)) s

  unfoldable pub free_slot : Job api.Acker → Shared api → Shared api
  free_slot job s =
      if ltb 0 (spec_field 0 (λ spec. spec.max_concurrency) job.name s)
      then (call (api.release_slot job.name (slot_key job)) s).1
      else s

  abbrev pub push_step : NewJob → Shared api → Shared api
  push_step job s =
      let owed = if batch s then record s { total = u64 (s.total + 1) } else s in
      let (answer, after) = call (api.push job 0) owed in
      if is_err answer
      then count_error after
      else count (λ c. record c { chained = u64 (c.chained + 1) }) after

  -- Are there attempts left, and is the failure one that another attempt may mend?
  abbrev pub may_retry : Job api.Acker → Outcome → Shared api → Bool
  may_retry job outcome s =
      not (is_reject outcome.directive)
      && leb job.attempt (spec_field 0 (λ spec. spec.retries) job.name s)

  abbrev pub schedule_retry : Job api.Acker → Outcome → Shared api → Shared api
  schedule_retry job outcome s =
      call_counting (api.retry job.receipt (retry_delay fl outcome (lookup job.name s.specs) job))
        (count (λ c. record c { retried = u64 (c.retried + 1) }) s)

  unfoldable pub adopt : (now : ℕ) → Delivery api.Acker → Shared api → Job api.Acker × Shared api
  adopt now d s = elim d.receipt [
    | memory id ↦ (adopted id now d, s)
    | _ ↦ (adopted s.next_task_id now d, record s { next_task_id = u64 (s.next_task_id + 1) })
  ]

  unfoldable pub try_job : (now lease : ℕ) → Shared api → Option (Job api.Acker) × Shared api
  try_job now lease s =
      let (answer, after) = call (api.claim lease 0) s in
      elim answer [
        | err ↦ (none, count_error after)
        | ok found ↦ elim found [
          | none ↦ (none, after)
          | some d ↦ let (job, adopting) = adopt now d after in (some job, adopting)
        ]
      ]

module _ {fl : Float} {api : BrokerApi fl} (pack : MessagePack) where
  unfoldable pub keep_result : Job api.Acker → Outcome → Shared api → Shared api
  keep_result job outcome s =
      let ttl = result_ttl job s in
      if ttl == 0 then s else elim (pack.write_value (envelope outcome)) [
        | none ↦ s
        | some blob ↦ call_counting (api.store_result job.id blob (from_millis ttl)) s
      ]

  unfoldable pub advance_chain : Job api.Acker → Outcome → Shared api → Shared api
  advance_chain job outcome s = elim (next_step pack job.chain) [
    | none ↦ s
    | some step ↦ push_step (chain_job pack step outcome.result) s
  ]

  abbrev pub bury : Job api.Acker → Outcome → Shared api → Shared api
  bury job outcome s =
      let kept =
        keep_result job outcome
          (count (λ c. record c { dead_lettered = u64 (c.dead_lettered + 1) }) s) in
      record_outcome job.task_id outcome (
        call_counting
          (api.dead_letter job.receipt outcome.error_type outcome.traceback kept.max_dead) kept)

  unfoldable pub fail_job : Job api.Acker → Outcome → Shared api → Shared api
  fail_job job outcome s =
      let freed = free_slot job s in
      if may_retry job outcome freed
      then schedule_retry job outcome freed
      else bury job outcome freed

  -- `now` is the clock when the metrics read `dispatched.elapsed()`.
  unfoldable pub settle : (now : ℕ) → Job api.Acker → Outcome → Shared api → Shared api
  settle now job outcome s =
      let observed = λ (t : Shared api). record t {
        metrics = observe job.name outcome.succeeded (now - job.dispatched) t.metrics;
      } in
      if outcome.succeeded
      then record_outcome job.task_id outcome (
          call_counting (api.ack job.receipt)
            (advance_chain job outcome (keep_result job outcome (observed (free_slot job s)))))
      else fail_job job outcome (observed s)

  unfoldable pub give_back : Job api.Acker → Shared api → Shared api
  give_back job =
      fail_job job (nack (text "ChildDied") (job.name ++ text " did not survive its child"))
