-- ===== src/Supervisor/Settle/Exactly.antt =====
-- The calls that a supervisor makes of its broker, while it settles jobs. The broker here is any
-- broker: it writes down what it is asked, and an oracle decides, from what was asked before, which
-- calls fail.
use tarsk.Base.{
  Bool, Bool-cases, List, Option, Res, Text, [], arith, err, false, if◌then◌else◌, inl, inr, ok,
  text_eq, true, ℕ, ◌+◌, ◌-◌, ◌∷◌, ◌≡◌,
}
use tarsk.Broker.{Delivery, NewJob, Receipt, u64}
use tarsk.Metrics.{observe}
use tarsk.Supervisor.{BrokerApi, Job, Outcome, Shared, count, record_outcome}
use tarsk.Wire.{MessagePack}
use tarsk.Base.Dict.{lookup}
use tarsk.Base.Float.{Float}
use tarsk.Supervisor.Settle.{
  advance_chain, fail_job, free_slot, keep_result, may_retry, retry_delay, settle,
}

pub data Call (Acker : Type 0) : Type 0 where
  pushed : NewJob → Call Acker
  claimed : Call Acker
  acked : Receipt Acker → Call Acker
  retried_after : Receipt Acker → (delay : ℕ) → Call Acker
  buried : Receipt Acker → (error : Text) → Call Acker
  filed : (id : Text) → Call Acker
  asked : (task : Text) → Call Acker
  released : (task key : Text) → Call Acker

-- Is the call one that settles a delivery?
abbrev pub settles : {Acker : Type 0} → Call Acker → Bool
settles (acked r) = true
settles (retried_after r delay) = true
settles (buried r error) = true
settles _ = false

-- What an oracle answers to the next call, given the log so far, oldest last.
pub record Oracle (Acker : Type 0) : Type 0 where
  pub fails : List (Call Acker) → Bool
  pub found : List (Call Acker) → Option (Delivery Acker)
  pub number : List (Call Acker) → ℕ
  pub granted : List (Call Acker) → Bool
  pub cancelled : List (Call Acker) → List Text

abbrev pub answer {ℓ} :
    {A : Type ℓ} {Acker : Type 0}
    → Oracle Acker
    → (List (Call Acker) → A)
    → Call Acker
    → List (Call Acker)
    → Res A × List (Call Acker)
answer o f c log = (if o.fails log then err else ok (f log), c ∷ log)

abbrev pub logging : (fl : Float) (Acker : Type 0) → Oracle Acker → BrokerApi fl
logging fl Acker o = record {
  Store = List (Call Acker);
  Acker = Acker;
  drains_when_empty = false;
  set_prefetch_cap = λ children log. log;
  push = λ job delay. answer o (λ _. tt) (pushed job);
  claim = λ grace block. answer o o.found claimed;
  ack = λ r. answer o (λ _. tt) (acked r);
  retry = λ r delay. answer o (λ _. tt) (retried_after r delay);
  dead_letter = λ r error traceback keep. answer o (λ _. tt) (buried r error);
  store_result = λ id blob ttl. answer o (λ _. tt) (filed id);
  take_token = λ task rate burst. answer o o.number (asked task);
  acquire_slot = λ task key limit lease. answer o o.granted (asked task);
  release_slot = λ task key. answer o (λ _. tt) (released task key);
  claim_tick = λ name minute. answer o o.granted (asked name);
  depth = answer o (λ _. []) (asked []);
  revoked_all = answer o o.cancelled (asked []);
  reclaim_expired = λ grace. answer o o.number (asked []);
}

-- The calls that settle something, newest first.
unfoldable pub verdicts : {Acker : Type 0} → List (Call Acker) → List (Call Acker)
verdicts [] = []
verdicts (c ∷ log) = if settles c then c ∷ verdicts log else verdicts log

module _ (fl : Float) {Acker : Type 0} (o : Oracle Acker) (pack : MessagePack) where
  -- What the supervisor decides about a job that ended in this way.
  abbrev pub verdict : Job Acker → Outcome → Shared (logging fl Acker o) → Call Acker
  verdict job outcome s =
      if outcome.succeeded
      then acked job.receipt
      else if may_retry {api = logging fl Acker o} job outcome s
      then retried_after job.receipt (retry_delay fl outcome (lookup job.name s.specs) job)
      else buried job.receipt outcome.error_type

  keep_result-verdicts :
      (job : Job Acker) (outcome : Outcome) (s : Shared (logging fl Acker o))
      → let after = keep_result {api = logging fl Acker o} pack job outcome s in
        verdicts after.store ≡ verdicts s.store
  unfolding keep_result verdicts
  keep_result-verdicts job outcome s = ground arith

  free_slot-verdicts :
      (job : Job Acker) (s : Shared (logging fl Acker o))
      → let after = free_slot {api = logging fl Acker o} job s in
        (verdicts after.store ≡ verdicts s.store)
        × (lookup job.name after.specs ≡ lookup job.name s.specs)
  unfolding free_slot verdicts
  free_slot-verdicts job s = ground arith

  advance_chain-verdicts :
      (job : Job Acker) (outcome : Outcome) (s : Shared (logging fl Acker o))
      → let after = advance_chain {api = logging fl Acker o} pack job outcome s in
        verdicts after.store ≡ verdicts s.store
  unfolding advance_chain verdicts
  advance_chain-verdicts job outcome s = ground arith

  pub fail_job_once :
      (job : Job Acker) (outcome : Outcome) (s : Shared (logging fl Acker o))
      → outcome.succeeded ≡ false
      → (before : List (Call Acker)) × ((fail_job {api = logging fl Acker o} pack job outcome
            s).store
          ≡ verdict job outcome s ∷ before)
        × (verdicts before ≡ verdicts s.store)
  unfolding fail_job record_outcome
  fail_job_once job outcome s failed =
      let freed = free_slot {api = logging fl Acker o} job s in
      elim (Bool-cases (may_retry {api = logging fl Acker o} job outcome freed)) [
        | inl again ↦
            (freed.store, ground (arith, free_slot-verdicts job s), (free_slot-verdicts job s).0)
        | inr last ↦ (
          (keep_result {api = logging fl Acker o} pack job outcome (
              count {api = logging fl Acker o}
                (λ c. record c { dead_lettered = u64 (c.dead_lettered + 1) }) freed)).store,
          ground (arith, free_slot-verdicts job s),
          ground (
            arith,
            free_slot-verdicts job s,
            keep_result-verdicts job outcome (
                count {api = logging fl Acker o}
                  (λ c. record c { dead_lettered = u64 (c.dead_lettered + 1) }) freed),
          ),
        )
      ]

  pub settle_once :
      (now : ℕ) (job : Job Acker) (outcome : Outcome) (s : Shared (logging fl Acker o))
      → (before : List (Call Acker)) × ((settle {api = logging fl Acker o} pack now job outcome
            s).store
          ≡ verdict job outcome s ∷ before)
        × (verdicts before ≡ verdicts s.store)
  unfolding settle record_outcome
  settle_once now job outcome s = elim (Bool-cases outcome.succeeded) [
    | inl succeeded ↦ (
      (advance_chain {api = logging fl Acker o} pack job outcome (
          keep_result {api = logging fl Acker o} pack job outcome
            (record (free_slot {api = logging fl Acker o} job s) {
              metrics =
                  observe job.name outcome.succeeded (now - job.dispatched)
                    (free_slot {api = logging fl Acker o} job s).metrics;
            }))).store,
      ground arith,
      ground (
        arith,
        advance_chain-verdicts job outcome (
            keep_result {api = logging fl Acker o} pack job outcome
              (record (free_slot {api = logging fl Acker o} job s) {
                metrics =
                    observe job.name outcome.succeeded (now - job.dispatched)
                      (free_slot {api = logging fl Acker o} job s).metrics;
              })),
        keep_result-verdicts job outcome (record (free_slot {api = logging fl Acker o} job s) {
          metrics =
              observe job.name outcome.succeeded (now - job.dispatched)
                (free_slot {api = logging fl Acker o} job s).metrics;
        }),
        free_slot-verdicts job s,
      ),
    )
    | inr failed ↦
        let observed : Shared (logging fl Acker o) = record s {
          metrics = observe job.name false (now - job.dispatched) s.metrics;
        } in
        let (before, e, same) = fail_job_once job outcome observed failed in
        (before, ground (arith, e), same)
  ]
