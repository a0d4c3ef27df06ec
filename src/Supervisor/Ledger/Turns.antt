-- ===== src/Supervisor/Ledger/Turns.antt =====
-- The balance over a whole filling of a child (the `fill!` of `serve_inner`, lib.rs).
use tarsk.Base.{
  All, Bool, Bool-cases, List, Option-cases, [], arith, inl, inr, nat_eq, refl, subst, true, ℕ, ◌+◌,
  ◌<◌, ◌^◌, ◌∷◌, ◌≡◌, ◌≤◌,
}
use tarsk.Broker.{Receipt}
use tarsk.Supervisor.{Job, Shared}
use tarsk.Base.Dict.{Distinct}
use tarsk.Base.Float.{Float}
use tarsk.Broker.Memory.{claim}
use tarsk.Supervisor.Dispatch.{
  Child, Filled, Moment, claim_turn, fill, got, is_idle, may_take, nothing, outcome_after, place,
  verdict_of,
}
use tarsk.Supervisor.Gates.{Pace}
use tarsk.Supervisor.Ledger.{settled}
use tarsk.Supervisor.Dispatch.Bounds.{Claimed-cases}
use tarsk.Supervisor.Ledger.Filling.{
  IsBalanced, IsCalm, IsClaimed, IsFresh, IsFresh-raise, IsRemote, claim_turn-IsClaimed, numbers,
  place-IsBalanced,
}
use tarsk.Supervisor.Ledger.Taking.{taken}
use tarsk.Supervisor.Settle.Exactly.{Oracle, logging}

module _ (fl : Float) {Acker : Type 0} (o : Oracle Acker) (p : Receipt Acker → Bool) (k : ℕ) where
  pub IsBalanced-refl :
      (n : ℕ) (s : Shared (logging fl Acker o)) (child : Child (logging fl Acker o))
      → IsFresh s.next_task_id child.inflight
      → Distinct child.inflight
      → IsBalanced fl o p k n s child s child
  IsBalanced-refl n s child fresh d = (refl, fresh, d, omega arith, omega arith)

  pub IsBalanced-widen :
      (n : ℕ) (s s1 : Shared (logging fl Acker o)) (child child1 : Child (logging fl Acker o))
      → IsBalanced fl o p k 0 s child s1 child1
      → IsBalanced fl o p k n s child s1 child1
  IsBalanced-widen n s s1 child child1 (e, fresh, d, low, high) =
      (e, fresh, d, low, omega (arith, high))

  pub IsBalanced-trans :
      (n n2 : ℕ) (s s1 s2 : Shared (logging fl Acker o))
      (child child1 child2 : Child (logging fl Acker o))
      → IsBalanced fl o p k n s child s1 child1
      → IsBalanced fl o p k n2 s1 child1 s2 child2
      → IsBalanced fl o p k (n + n2) s child s2 child2
  IsBalanced-trans n n2 s s1 s2 child child1 child2 (e, f, d, low, high) (e2, f2, d2, low2, high2) =
      (omega (arith, e, e2), f2, d2, omega (arith, low, low2), omega (arith, high, high2))

  waited-IsBalanced :
      (s s0 after : Shared (logging fl Acker o)) (child : Child (logging fl Acker o))
      → IsFresh s.next_task_id child.inflight
      → Distinct child.inflight
      → (settled p s0.store ≡ settled p s.store)
        × (taken o p s0.store ≡ taken o p s.store)
        × (s.next_task_id ≤ s0.next_task_id)
        × (s0.next_task_id ≤ s.next_task_id + k)
      → IsClaimed fl o p k s0 nothing after
      → IsBalanced fl o p k (k + k + k + 1) s child after child
  waited-IsBalanced s s0 after child fresh d b c = ground (
    arith,
    d,
    b,
    c,
    IsFresh-raise s.next_task_id after.next_task_id child.inflight (omega (arith, b, c)) fresh,
  )

  placed-IsBalanced :
      (pace : Pace) (m : Moment (logging fl Acker o)) (job : Job Acker)
      (s s0 after : Shared (logging fl Acker o)) (child : Child (logging fl Acker o))
      → m.settle_open ≡ true
      → IsFresh s.next_task_id child.inflight
      → Distinct child.inflight
      → (settled p s0.store ≡ settled p s.store)
        × (taken o p s0.store ≡ taken o p s.store)
        × (s.next_task_id ≤ s0.next_task_id)
        × (s0.next_task_id ≤ s.next_task_id + k)
      → IsClaimed fl o p k s0 (got job) after
      → let (placed, later, kept) = place {api = logging fl Acker o} pace m job after child in
        IsBalanced fl o p k (k + k + k + 1) s child later kept
  placed-IsBalanced pace m job s s0 after child takes fresh d b c =
      let raised =
        IsFresh-raise s.next_task_id job.task_id child.inflight (omega (arith, b, c)) fresh in
      let placing = place-IsBalanced fl o p k pace m job after child takes raised d c.2 in
      (
        omega (arith, placing, b, c),
        placing.1,
        placing.2,
        omega (arith, placing, b, c),
        omega (arith, placing, b, c),
      )

  -- Filling a child keeps its balance.
  pub fill-IsBalanced :
      (pace : Pace) (ms : List (Moment (logging fl Acker o))) (outcome : Filled)
      (s : Shared (logging fl Acker o)) (child : Child (logging fl Acker o))
      → IsRemote o
      → All (IsCalm fl o p k) ms
      → IsFresh s.next_task_id child.inflight
      → Distinct child.inflight
      → s.next_task_id + numbers fl o p k ms < 2 ^ 64
      → let (filled, after, kept) = fill {api = logging fl Acker o} pace ms outcome s child in
        IsBalanced fl o p k (numbers fl o p k ms) s child after kept
  unfolding fill numbers
  fill-IsBalanced pace [] outcome s child remote calm fresh d room =
      IsBalanced-refl 0 s child fresh d
  fill-IsBalanced pace (m ∷ ms) outcome s child remote calm fresh d room =
      let s0 = m.before s in
      let b = calm.0.1 s in
      let (claim, after) = claim_turn {api = logging fl Acker o} pace m s0 child in
      let c =
        claim_turn-IsClaimed fl o p k pace m s0 child remote calm.0 (omega (arith, b, room)) in
      let rest = numbers fl o p k ms in
      elim (Bool-cases (may_take {api = logging fl Acker o} child)) [
        | inr full ↦ rw (full, fill) (IsBalanced-refl (k + k + k + 1 + rest) s child fresh d)
        | inl takes ↦
            elim (Claimed-cases (claim_turn {api = logging fl Acker o} pace m s0 child).0) [
              | inl over ↦
                  let here =
                    waited-IsBalanced s s0 after child fresh d b
                      (subst (λ x. IsClaimed fl o p k s0 x after) over c) in
                  rw (takes, over, fill)
                    (IsBalanced-trans (k + k + k + 1) rest s after after child child child here
                      (IsBalanced-refl rest after child here.1 here.2))
              | inr (inl waits) ↦
                  let here =
                    waited-IsBalanced s s0 after child fresh d b
                      (subst (λ x. IsClaimed fl o p k s0 x after) waits c) in
                  elim (Bool-cases (is_idle {api = logging fl Acker o} child)) [
                    | inl idle ↦
                        let (filled, last, kept) =
                          fill {api = logging fl Acker o} pace ms outcome after child in
                        rw (takes, waits, idle, fill)
                          (IsBalanced-trans (k + k + k + 1) rest s after last child child kept here
                            (fill-IsBalanced pace ms outcome after child remote calm.1 here.1 here.2
                              (omega (arith, here, room))))
                    | inr busy ↦
                        rw (takes, waits, busy, fill)
                          (IsBalanced-trans (k + k + k + 1) rest s after after child child child
                            here (IsBalanced-refl rest after child here.1 here.2))
                  ]
              | inr (inr (job, e)) ↦
                  let here =
                    placed-IsBalanced pace m job s s0 after child calm.0.0 fresh d b
                      (subst (λ x. IsClaimed fl o p k s0 x after) e c) in
                  let (placed, later, held_child) =
                    place {api = logging fl Acker o} pace m job after child in
                  elim (Option-cases (verdict_of placed)) [
                    | inl goes_on ↦
                        let (filled, last, kept) =
                          fill {api = logging fl Acker o} pace ms (outcome_after placed outcome)
                            later held_child in
                        rw (takes, e, goes_on, fill)
                          (IsBalanced-trans (k + k + k + 1) rest s later last child held_child kept
                            here
                            (fill-IsBalanced pace ms (outcome_after placed outcome) later held_child
                              remote calm.1 here.1 here.2 (omega (arith, here, room))))
                    | inr (stopped, stops_here) ↦
                        rw (takes, e, stops_here, fill)
                          (IsBalanced-trans (k + k + k + 1) rest s later later child held_child
                            held_child here (IsBalanced-refl rest later held_child here.1 here.2))
                  ]
            ]
      ]
