-- ===== src/Supervisor/Ledger.antt =====
-- Deliveries counted: those that the broker was told to settle, those of the jobs in flight, and
-- those of the outcomes that wait to be settled. A test on receipts says which ones count, so the
-- counts of one receipt, and of all receipts, are instances.
pub mod Leaving
pub mod Replacing
pub mod Taking
pub mod Filling
pub mod Turns
pub mod Events
pub mod Frames
pub mod Ticks
pub mod Serving
pub mod Whole
use Prim.Native.Nat.{differ}
use tarsk.Base.{
  Bool, Bool-cases, List, [], ap, arith, false, if◌then◌else◌, inl, inr, nat_eq, refl, some, sym,
  text, ℕ, ◌++◌, ◌+◌, ◌==◌, ◌∙◌, ◌∷◌, ◌≡◌,
}
use tarsk.Broker.{Receipt}
use tarsk.Supervisor.{Job, Outcome, Shared, nack}
use tarsk.Wire.{MessagePack}
use tarsk.Base.Dict.{Dict, Distinct, lookup, remove, remove-absent}
use tarsk.Base.Float.{Float}
use tarsk.Supervisor.Checking.{Cfg}
use tarsk.Supervisor.Draining.{give_back_all}
use tarsk.Supervisor.Loop.{settle_all}
use tarsk.Supervisor.Settle.{fail_job, give_back, settle}
use tarsk.Supervisor.Slot.{fail_killed, hard_limit_outcome}
use tarsk.Supervisor.Settle.Exactly.{
  Call, Oracle, acked, asked, buried, claimed, fail_job_once, filed, logging, pushed, released,
  retried_after, settle_once, verdicts,
}

abbrev pub weight : {Acker : Type 0} → (Receipt Acker → Bool) → Receipt Acker → ℕ
weight p r = if p r then 1 else 0

abbrev pub call_weight : {Acker : Type 0} → (Receipt Acker → Bool) → Call Acker → ℕ
call_weight p (acked r) = weight p r
call_weight p (retried_after r delay) = weight p r
call_weight p (buried r error) = weight p r
call_weight p _ = 0

-- The calls that settle a delivery.
unfoldable pub settled : {Acker : Type 0} → (Receipt Acker → Bool) → List (Call Acker) → ℕ
settled p [] = 0
settled p (c ∷ log) = call_weight p c + settled p log

-- The jobs in flight.
unfoldable pub held : {Acker : Type 0} → (Receipt Acker → Bool) → Dict ℕ (Job Acker) → ℕ
held p [] = 0
held p ((task_id, job) ∷ m) = weight p job.receipt + held p m

-- The outcomes that wait.
unfoldable pub queued_up :
    {Acker : Type 0} → (Receipt Acker → Bool) → List (Job Acker × Outcome) → ℕ
queued_up p [] = 0
queued_up p ((job, outcome) ∷ rest) = weight p job.receipt + queued_up p rest

module _ {Acker : Type 0} (p : Receipt Acker → Bool) where
  pub settled-verdicts : (log : List (Call Acker)) → settled p (verdicts log) ≡ settled p log
  unfolding settled verdicts
  settled-verdicts [] = refl
  settled-verdicts (pushed job ∷ log) = omega (arith, settled-verdicts log)
  settled-verdicts (claimed ∷ log) = omega (arith, settled-verdicts log)
  settled-verdicts (acked r ∷ log) = omega (arith, settled-verdicts log)
  settled-verdicts (retried_after r delay ∷ log) = omega (arith, settled-verdicts log)
  settled-verdicts (buried r error ∷ log) = omega (arith, settled-verdicts log)
  settled-verdicts (filed id ∷ log) = omega (arith, settled-verdicts log)
  settled-verdicts (asked task ∷ log) = omega (arith, settled-verdicts log)
  settled-verdicts (released task key ∷ log) = omega (arith, settled-verdicts log)

  pub settled_same :
      (log later : List (Call Acker))
      → verdicts later ≡ verdicts log
      → settled p later ≡ settled p log
  settled_same log later same =
      sym (settled-verdicts later) ∙ ap (settled p) same ∙ settled-verdicts log

  pub held-remove :
      (k : ℕ) (job : Job Acker) (m : Dict ℕ (Job Acker))
      → Distinct m
      → lookup k m ≡ some job
      → weight p job.receipt + held p (remove k m) ≡ held p m
  unfolding held lookup remove
  held-remove k job [] d h = absurd (ground (arith, h))
  held-remove k job ((j, other) ∷ m) (apart, d) h = elim (Bool-cases (j == k)) [
    | inl same ↦
        ground (arith, same, h, remove-absent k m (rw (sym ((nat_eq.beq_iff j k).0 same)) apart))
    | inr differ ↦ ground (arith, differ, held-remove k job m d (ground (arith, h, differ)))
  ]

  pub queued_up-append :
      (xs ys : List (Job Acker × Outcome))
      → queued_up p (xs ++ ys) ≡ queued_up p xs + queued_up p ys
  unfolding queued_up
  queued_up-append [] ys = omega arith
  queued_up-append ((job, outcome) ∷ xs) ys = omega (arith, queued_up-append xs ys)

module _ (fl : Float) {Acker : Type 0} (o : Oracle Acker) (pack : MessagePack)
    (p : Receipt Acker → Bool) where
  pub settled-fail_job :
      (job : Job Acker) (outcome : Outcome) (s : Shared (logging fl Acker o))
      → outcome.succeeded ≡ false
      → settled p (fail_job {api = logging fl Acker o} pack job outcome s).store
        ≡ weight p job.receipt + settled p s.store
  unfolding settled
  settled-fail_job job outcome s failed =
      let (before, e, same) = fail_job_once fl o pack job outcome s failed in
      rw e (ground (arith, failed, settled_same p s.store before same))

  pub settled-settle :
      (now : ℕ) (job : Job Acker) (outcome : Outcome) (s : Shared (logging fl Acker o))
      → settled p (settle {api = logging fl Acker o} pack now job outcome s).store
        ≡ weight p job.receipt + settled p s.store
  unfolding settled
  settled-settle now job outcome s =
      let (before, e, same) = settle_once fl o pack now job outcome s in
      rw e (ground (arith, settled_same p s.store before same))

  pub settled-give_back_all :
      (m : Dict ℕ (Job Acker)) (s : Shared (logging fl Acker o))
      → settled p (give_back_all {api = logging fl Acker o} pack m s).store
        ≡ held p m + settled p s.store
  unfolding give_back_all held give_back
  settled-give_back_all [] s = omega arith
  settled-give_back_all ((task_id, job) ∷ m) s = omega (
    arith,
    settled-give_back_all m (give_back {api = logging fl Acker o} pack job s),
    settled-fail_job job (nack (text "ChildDied") (job.name ++ text " did not survive its child")) s
        refl,
  )

  pub settled-fail_killed :
      (cfg : Cfg) (m : Dict ℕ (Job Acker)) (s : Shared (logging fl Acker o))
      → settled p (fail_killed {api = logging fl Acker o} pack cfg m s).store
        ≡ held p m + settled p s.store
  unfolding fail_killed held
  settled-fail_killed cfg [] s = omega arith
  settled-fail_killed cfg ((task_id, job) ∷ m) s = omega (
    arith,
    settled-fail_killed cfg m
        (fail_job {api = logging fl Acker o} pack job (hard_limit_outcome cfg job) s),
    settled-fail_job job (hard_limit_outcome cfg job) s refl,
  )

  pub settled-settle_all :
      (now : ℕ) (xs : List (Job Acker × Outcome)) (s : Shared (logging fl Acker o))
      → settled p (settle_all {api = logging fl Acker o} pack now xs s).store
        ≡ queued_up p xs + settled p s.store
  unfolding settle_all queued_up
  settled-settle_all now [] s = omega arith
  settled-settle_all now ((job, outcome) ∷ xs) s = omega (
    arith,
    settled-settle_all now xs (settle {api = logging fl Acker o} pack now job outcome s),
    settled-settle now job outcome s,
  )
