-- ===== src/Supervisor/Ledger/Filling.antt =====
-- The balance of a child: what was taken is settled, in flight, or waits to be settled. Filling the
-- child keeps it (the `fill!` of `serve_inner`, lib.rs).
use tarsk.Base.{
  All, Bool, Bool-cases, List, Option-cases, [], arith, false, inl, inr, nat_eq, none, refl, some,
  true, ℕ, ◌+◌, ◌<◌, ◌^◌, ◌∷◌, ◌≡◌, ◌≤◌,
}
use tarsk.Broker.{Delivery, Receipt, memory}
use tarsk.Supervisor.{Job, Shared, count_error}
use tarsk.Base.Dict.{Dict, Distinct, insert, lookup, remove, remove-absent}
use tarsk.Base.Float.{Float}
use tarsk.Broker.Memory.{claim}
use tarsk.Supervisor.Dispatch.{
  Child, Claimed, Moment, claim_turn, ended, got, is_idle, next_job_turn, nothing, place,
}
use tarsk.Supervisor.Gates.{Pace, admit}
use tarsk.Supervisor.Ledger.{held, queued_up, queued_up-append, settled, weight}
use tarsk.Supervisor.Settle.{adopt, try_job}
use tarsk.Supervisor.Dispatch.Placing.{Gate-cases}
use tarsk.Supervisor.Ledger.Taking.{admit-TakesNone, taken}
use tarsk.Supervisor.Settle.Exactly.{Call, Oracle, claimed, logging}

-- The ids in flight are below the next one.
abbrev pub IsFresh : {Acker : Type 0} → (next_task_id : ℕ) → Dict ℕ (Job Acker) → Type 0
IsFresh next_task_id = All (λ entry. entry.0 < next_task_id)

abbrev pub is_remote : {Acker : Type 0} → Receipt Acker → Bool
is_remote (memory id) = false
is_remote _ = true

-- A broker whose deliveries carry a receipt of their own, not a number of this process.
abbrev pub IsRemote : {Acker : Type 0} → Oracle Acker → Type 0
IsRemote {Acker} o =
    (log : List (Call Acker)) (d : Delivery Acker)
    → o.found log ≡ some d
    → is_remote d.receipt ≡ true

module _ {Acker : Type 0} where
  pub IsFresh-raise :
      (low high : ℕ) (m : Dict ℕ (Job Acker)) → low ≤ high → IsFresh low m → IsFresh high m
  IsFresh-raise low high [] h fresh = tt
  IsFresh-raise low high ((k, job) ∷ m) h fresh =
      ground (arith, h, fresh, IsFresh-raise low high m h fresh.1)

  pub IsFresh-absent : (n : ℕ) (m : Dict ℕ (Job Acker)) → IsFresh n m → lookup n m ≡ none
  unfolding lookup
  IsFresh-absent n [] fresh = refl
  IsFresh-absent n ((k, job) ∷ m) fresh = ground (arith, fresh, IsFresh-absent n m fresh.1)

  pub IsFresh-remove : (n k : ℕ) (m : Dict ℕ (Job Acker)) → IsFresh n m → IsFresh n (remove k m)
  unfolding remove
  IsFresh-remove n k [] fresh = tt
  IsFresh-remove n k ((j, job) ∷ m) fresh = ground (arith, fresh, IsFresh-remove n k m fresh.1)

module _ (fl : Float) {Acker : Type 0} (o : Oracle Acker) (p : Receipt Acker → Bool) (k : ℕ) where
  -- What the other tasks do: they neither take nor settle the deliveries that are counted, and they
  -- use up at most `k` task numbers.
  abbrev pub IsApart : (Shared (logging fl Acker o) → Shared (logging fl Acker o)) → Type 0
  IsApart acts =
      (t : Shared (logging fl Acker o))
      → (settled p (acts t).store ≡ settled p t.store)
        × (taken o p (acts t).store ≡ taken o p t.store)
        × (t.next_task_id ≤ (acts t).next_task_id)
        × ((acts t).next_task_id ≤ t.next_task_id + k)

  abbrev pub IsCalm : Moment (logging fl Acker o) → Type 0
  IsCalm m = (m.settle_open ≡ true) × IsApart m.before × IsApart m.claiming × IsApart m.parked

  -- The task numbers that a list of turns may use up.
  unfoldable pub numbers : List (Moment (logging fl Acker o)) → ℕ
  numbers [] = 0
  numbers (m ∷ ms) = k + k + k + 1 + numbers ms

  -- From one state of a child to a later one: the balance, ids that are fresh, and at most `n`
  -- numbers used up.
  abbrev pub IsBalanced :
      (n : ℕ)
      → Shared (logging fl Acker o)
      → Child (logging fl Acker o)
      → Shared (logging fl Acker o)
      → Child (logging fl Acker o)
      → Type 0
  IsBalanced n s child after kept =
      (settled p after.store + held p kept.inflight + queued_up p kept.to_settle + taken o p s.store
        ≡ settled p s.store
          + held p child.inflight
          + queued_up p child.to_settle
          + taken o p after.store)
      × IsFresh after.next_task_id kept.inflight
      × Distinct kept.inflight
      × (s.next_task_id ≤ after.next_task_id)
      × (after.next_task_id ≤ s.next_task_id + n)

  -- A claim: a job that it brings has a number of its own, and only such a claim takes anything.
  abbrev pub IsClaimed :
      Shared (logging fl Acker o) → Claimed Acker → Shared (logging fl Acker o) → Type 0
  IsClaimed s (got job) after =
      (taken o p after.store ≡ weight p job.receipt + taken o p s.store)
      × (s.next_task_id ≤ job.task_id)
      × (after.next_task_id ≡ job.task_id + 1)
      × (job.task_id ≤ s.next_task_id + (k + k))
      × (settled p after.store ≡ settled p s.store)
  IsClaimed s nothing after =
      (taken o p after.store ≡ taken o p s.store)
      × (s.next_task_id ≤ after.next_task_id)
      × (after.next_task_id ≤ s.next_task_id + (k + k))
      × (settled p after.store ≡ settled p s.store)
  IsClaimed s ended after =
      (taken o p after.store ≡ taken o p s.store)
      × (s.next_task_id ≤ after.next_task_id)
      × (after.next_task_id ≤ s.next_task_id + (k + k))
      × (settled p after.store ≡ settled p s.store)

  try_job-IsClaimed :
      (now lease : ℕ) (s : Shared (logging fl Acker o))
      → IsRemote o
      → s.next_task_id + 1 < 2 ^ 64
      → let (found, after) = try_job {api = logging fl Acker o} now lease s in
        IsClaimed s (elim found [ none ↦ nothing | some job ↦ got job ]) after
  unfolding try_job adopt taken settled
  try_job-IsClaimed now lease s remote room = elim (Bool-cases (o.fails s.store)) [
    | inl fails ↦ ground (arith, fails)
    | inr works ↦ elim (Option-cases (o.found s.store)) [
      | inl none_there ↦ ground (arith, works, none_there)
      | inr (d, e) ↦ ground (arith, works, e, remote s.store d e, room)
    ]
  ]

  next_job_turn-IsClaimed :
      (pace : Pace) (m : Moment (logging fl Acker o)) (s : Shared (logging fl Acker o))
      → IsRemote o
      → IsCalm m
      → s.next_task_id + 1 < 2 ^ 64
      → let (claim, after) = next_job_turn {api = logging fl Acker o} pace m s in
        IsClaimed s claim after
  unfolding next_job_turn adopt taken settled
  next_job_turn-IsClaimed pace m s remote calm room =
      let asked_s : Shared (logging fl Acker o) = record s { store = claimed ∷ s.store } in
      let counted = count_error {api = logging fl Acker o} asked_s in
      elim (Bool-cases (o.fails s.store)) [
        | inl fails ↦ ground (arith, fails, calm.2 counted, calm.3 (m.claiming counted))
        | inr works ↦ elim (Option-cases (o.found s.store)) [
          | inl none_there ↦
              ground (arith, works, none_there, calm.2 asked_s, calm.3 (m.claiming asked_s))
          | inr (d, e) ↦ ground (arith, works, e, remote s.store d e, room)
        ]
      ]

  pub claim_turn-IsClaimed :
      (pace : Pace) (m : Moment (logging fl Acker o)) (s : Shared (logging fl Acker o))
      (child : Child (logging fl Acker o))
      → IsRemote o
      → IsCalm m
      → s.next_task_id + 1 < 2 ^ 64
      → let (claim, after) = claim_turn {api = logging fl Acker o} pace m s child in
        IsClaimed s claim after
  unfolding claim_turn
  claim_turn-IsClaimed pace m s child remote calm room =
      elim (Bool-cases (is_idle {api = logging fl Acker o} child)) [
        | inl idle ↦ rw idle (next_job_turn-IsClaimed pace m s remote calm room)
        | inr busy ↦ rw busy (try_job-IsClaimed m.now pace.lease_grace s remote room)
      ]

  pub place-IsBalanced :
      (pace : Pace) (m : Moment (logging fl Acker o)) (job : Job Acker)
      (s : Shared (logging fl Acker o)) (child : Child (logging fl Acker o))
      → m.settle_open ≡ true
      → IsFresh job.task_id child.inflight
      → Distinct child.inflight
      → s.next_task_id ≡ job.task_id + 1
      → let (placed, after, kept) = place {api = logging fl Acker o} pace m job s child in
        (settled p after.store + held p kept.inflight + queued_up p kept.to_settle
          ≡ settled p s.store
            + held p child.inflight
            + queued_up p child.to_settle
            + weight p job.receipt)
        × IsFresh after.next_task_id kept.inflight
        × Distinct kept.inflight
        × (taken o p after.store ≡ taken o p s.store)
        × (after.next_task_id ≡ s.next_task_id)
  unfolding place taken settled held queued_up insert
  place-IsBalanced pace m job s child takes fresh d next =
      let asked_s = admit-TakesNone fl o p pace m.wall_ms job s in
      let apart = IsFresh-absent job.task_id child.inflight fresh in
      let raised =
        IsFresh-raise job.task_id s.next_task_id child.inflight (ground (arith, next)) fresh in
      elim (Gate-cases ((admit {api = logging fl Acker o} pace m.wall_ms job s).0)) [
        | inl e ↦ ground (
          arith,
          e,
          d,
          next,
          asked_s,
          raised,
          remove-absent job.task_id child.inflight apart,
          apart,
        )
        | inr other ↦ elim other [
          | inl (delay, e) ↦ ground (arith, e, d, next, asked_s, raised)
          | inr (outcome, e) ↦ ground (
            arith,
            e,
            d,
            takes,
            next,
            asked_s,
            raised,
            queued_up-append p child.to_settle ((job, outcome) ∷ []),
          )
        ]
      ]
