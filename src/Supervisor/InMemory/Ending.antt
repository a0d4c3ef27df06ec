-- ===== src/Supervisor/InMemory/Ending.antt =====
-- How a job ends on the in-memory broker: `fail_job` and `settle` over the arms of `Broker::Memory`.
use tarsk.Base.{[], arith, false, nat_eq, text_eq, true, ℕ, ◌++◌, ◌+◌, ◌∷◌, ◌≡◌}
use tarsk.Broker.{memory, u64}
use tarsk.Supervisor.{Job, Outcome, Shared, count, record_outcome}
use tarsk.Wire.{MessagePack}
use tarsk.Base.Dict.{contains_key, lookup, remove}
use tarsk.Base.Float.{Float}
use tarsk.Broker.Memory.{due_after, requeue, settle, store_result}
use tarsk.Supervisor.InMemory.{memory_api, retry_receipt, settle_receipt}
use tarsk.Supervisor.Ledger.{held}
use tarsk.Supervisor.Settle.{
  bury, fail_job, free_slot, keep_result, may_retry, retry_delay, schedule_retry,
}

module _ {fl : Float} (pack : MessagePack) where
  -- What a call may leave as it is: the queue, the jobs and the clock.
  abbrev pub Kept : Shared (memory_api fl) → Shared (memory_api fl) → Type 0
  Kept s after =
      (after.store.broker.ready ≡ s.store.broker.ready)
      × (after.store.broker.jobs ≡ s.store.broker.jobs)
      × (after.store.now ≡ s.store.now)
      × (after.specs ≡ s.specs)

  free_slot-Kept :
      (job : Job (Unit {0})) (s : Shared (memory_api fl))
      → Kept s (free_slot {api = memory_api fl} job s)
  unfolding free_slot
  free_slot-Kept job s = ground arith

  keep_result-Kept :
      (job : Job (Unit {0})) (outcome : Outcome) (s : Shared (memory_api fl))
      → Kept s (keep_result {api = memory_api fl} pack job outcome s)
  unfolding keep_result store_result
  keep_result-Kept job outcome s = ground arith

  schedule_retry-memory :
      (job : Job (Unit {0})) (outcome : Outcome) (s : Shared (memory_api fl)) (id : ℕ)
      → job.receipt ≡ memory id
      → contains_key id s.store.broker.jobs ≡ true
      → let after = (schedule_retry {api = memory_api fl} job outcome s).store.broker in
        (after.ready
          ≡ s.store.broker.ready
            ++ ((id, due_after (retry_delay fl outcome (lookup job.name s.specs) job) s.store.now)
                ∷ []))
        × (after.jobs ≡ s.store.broker.jobs)
  unfolding retry_receipt requeue
  schedule_retry-memory job outcome s id held known = rw held (ground (arith, known))

  bury-memory :
      (job : Job (Unit {0})) (outcome : Outcome) (s : Shared (memory_api fl)) (id : ℕ)
      → job.receipt ≡ memory id
      → let after = (bury {api = memory_api fl} pack job outcome s).store.broker in
        (after.ready ≡ s.store.broker.ready) × (after.jobs ≡ remove id s.store.broker.jobs)
  unfolding settle_receipt settle record_outcome
  bury-memory job outcome s id held =
      let counted_s : Shared (memory_api fl) =
        count {api = memory_api fl} (λ c. record c { dead_lettered = u64 (c.dead_lettered + 1) })
          s in
      ground (arith, held, keep_result-Kept job outcome counted_s)

  -- On the in-memory broker a failed job that may be retried is queued again, once, behind the
  -- others and due after its delay, and the jobs of the store stay as they are; any other failed
  -- job leaves the store and is not queued. The job is one that the store holds.
  pub fail_job-memory :
      (job : Job (Unit {0})) (outcome : Outcome) (s : Shared (memory_api fl)) (id : ℕ)
      → job.receipt ≡ memory id
      → contains_key id s.store.broker.jobs ≡ true
      → let after = (fail_job {api = memory_api fl} pack job outcome s).store.broker in
        let delay = retry_delay fl outcome (lookup job.name s.specs) job in
        (may_retry {api = memory_api fl} job outcome s ≡ true
          → (after.ready ≡ s.store.broker.ready ++ ((id, due_after delay s.store.now) ∷ []))
            × (after.jobs ≡ s.store.broker.jobs))
        × (may_retry {api = memory_api fl} job outcome s ≡ false
            → (after.ready ≡ s.store.broker.ready) × (after.jobs ≡ remove id s.store.broker.jobs))
  unfolding fail_job
  fail_job-memory job outcome s id held known =
      let freed = free_slot {api = memory_api fl} job s in
      ground (
        arith,
        known,
        free_slot-Kept job s,
        schedule_retry-memory job outcome freed id held,
        bury-memory job outcome freed id held,
      )
