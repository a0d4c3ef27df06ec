-- ===== src/Supervisor/Ledger/Taking.antt =====
-- Deliveries that the broker handed out, counted, and the operations that take none.
use tarsk.Base.{Bool, List, Text, [], arith, if◌then◌else◌, none, some, ℕ, ◌+◌, ◌-◌, ◌∷◌, ◌≡◌}
use tarsk.Broker.{Receipt, u64}
use tarsk.Metrics.{observe}
use tarsk.Supervisor.{Job, Outcome, Shared, count, record_outcome}
use tarsk.Wire.{MessagePack}
use tarsk.Base.Float.{Float}
use tarsk.Supervisor.Gates.{Pace, admit, rate_gate, revoked_gate, slot_gate, stale_gate}
use tarsk.Supervisor.Ledger.{settled, weight}
use tarsk.Supervisor.Settle.{advance_chain, fail_job, free_slot, keep_progress, keep_result, settle}
use tarsk.Supervisor.Settle.Exactly.{Call, Oracle, claimed, logging}

-- What the next claim adds, where the log so far is `log`.
abbrev pub found_weight :
    {Acker : Type 0} → Oracle Acker → (Receipt Acker → Bool) → List (Call Acker) → ℕ
found_weight o p log =
    if o.fails log then 0 else elim (o.found log) [ none ↦ 0 | some d ↦ weight p d.receipt ]

abbrev pub call_taken :
    {Acker : Type 0} → Oracle Acker → (Receipt Acker → Bool) → Call Acker → List (Call Acker) → ℕ
call_taken o p claimed log = found_weight o p log
call_taken o p _ log = 0

-- The deliveries that the claims of a log were answered with.
unfoldable pub taken :
    {Acker : Type 0} → Oracle Acker → (Receipt Acker → Bool) → List (Call Acker) → ℕ
taken o p [] = 0
taken o p (c ∷ log) = call_taken o p c log + taken o p log

module _ (fl : Float) {Acker : Type 0} (o : Oracle Acker) (p : Receipt Acker → Bool) where
  -- The operation takes no delivery and no task number.
  abbrev pub TakesNone : Shared (logging fl Acker o) → Shared (logging fl Acker o) → Type 0
  TakesNone s after =
      (taken o p after.store ≡ taken o p s.store) × (after.next_task_id ≡ s.next_task_id)

  pub keep_progress-TakesNone :
      (job : Job Acker) (blob : Text) (s : Shared (logging fl Acker o))
      → TakesNone s (keep_progress {api = logging fl Acker o} job blob s)
        × (settled p (keep_progress {api = logging fl Acker o} job blob s).store
            ≡ settled p s.store)
  unfolding keep_progress taken settled
  keep_progress-TakesNone job blob s = ground arith

  pub admit-TakesNone :
      (pace : Pace) (wall_ms : ℕ) (job : Job Acker) (s : Shared (logging fl Acker o))
      → TakesNone s (admit {api = logging fl Acker o} pace wall_ms job s).1
        × (settled p (admit {api = logging fl Acker o} pace wall_ms job s).1.store
            ≡ settled p s.store)
  unfolding admit stale_gate rate_gate slot_gate revoked_gate taken settled
  admit-TakesNone pace wall_ms job s = ground arith

module _ (fl : Float) {Acker : Type 0} (o : Oracle Acker) (pack : MessagePack)
    (p : Receipt Acker → Bool) where
  keep_result-TakesNone :
      (job : Job Acker) (outcome : Outcome) (s : Shared (logging fl Acker o))
      → TakesNone fl o p s (keep_result {api = logging fl Acker o} pack job outcome s)
  unfolding keep_result taken
  keep_result-TakesNone job outcome s = ground arith

  free_slot-TakesNone :
      (job : Job Acker) (s : Shared (logging fl Acker o))
      → TakesNone fl o p s (free_slot {api = logging fl Acker o} job s)
  unfolding free_slot taken
  free_slot-TakesNone job s = ground arith

  advance_chain-TakesNone :
      (job : Job Acker) (outcome : Outcome) (s : Shared (logging fl Acker o))
      → TakesNone fl o p s (advance_chain {api = logging fl Acker o} pack job outcome s)
  unfolding advance_chain taken
  advance_chain-TakesNone job outcome s = ground arith

  fail_job-TakesNone :
      (job : Job Acker) (outcome : Outcome) (s : Shared (logging fl Acker o))
      → TakesNone fl o p s (fail_job {api = logging fl Acker o} pack job outcome s)
  unfolding fail_job record_outcome taken
  fail_job-TakesNone job outcome s =
      let freed = free_slot {api = logging fl Acker o} job s in
      let counted =
        count {api = logging fl Acker o}
          (λ c. record c { dead_lettered = u64 (c.dead_lettered + 1) }) freed in
      ground (arith, free_slot-TakesNone job s, keep_result-TakesNone job outcome counted)

  pub settle-TakesNone :
      (now : ℕ) (job : Job Acker) (outcome : Outcome) (s : Shared (logging fl Acker o))
      → TakesNone fl o p s (settle {api = logging fl Acker o} pack now job outcome s)
  unfolding settle record_outcome taken
  settle-TakesNone now job outcome s =
      let freed = free_slot {api = logging fl Acker o} job s in
      let measured : Shared (logging fl Acker o) = record freed {
        metrics = observe job.name outcome.succeeded (now - job.dispatched) freed.metrics;
      } in
      let kept = keep_result {api = logging fl Acker o} pack job outcome measured in
      let seen : Shared (logging fl Acker o) = record s {
        metrics = observe job.name outcome.succeeded (now - job.dispatched) s.metrics;
      } in
      ground (
        arith,
        free_slot-TakesNone job s,
        keep_result-TakesNone job outcome measured,
        advance_chain-TakesNone job outcome kept,
        fail_job-TakesNone job outcome seen,
      )
