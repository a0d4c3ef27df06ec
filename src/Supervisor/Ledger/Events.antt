-- ===== src/Supervisor/Ledger/Events.antt =====
-- The balance over the events of a child (`serve_inner`, lib.rs).
use tarsk.Base.{
  Bool, Option, Option-cases, [], arith, false, inl, inr, nat_eq, none, refl, some, sym, true, ℕ,
  ◌∷◌, ◌≡◌, ◌⊎◌,
}
use tarsk.Broker.{Receipt}
use tarsk.Supervisor.{Outcome, Shared}
use tarsk.Base.Dict.{Distinct, Distinct-remove, lookup}
use tarsk.Base.Float.{Float}
use tarsk.Supervisor.Checking.{
  Cfg, Exit, Meets, Next, Serving, check, going, leaves, panicked, parked,
}
use tarsk.Supervisor.Dispatch.{Child, Filled, fill_dead, fill_done, fill_empty, fill_sent}
use tarsk.Supervisor.Ledger.{held-remove, queued_up, queued_up-append}
use tarsk.Supervisor.Serve.{on_answer, on_filled}
use tarsk.Supervisor.Ledger.Filling.{IsBalanced, IsFresh, IsFresh-remove}
use tarsk.Supervisor.Settle.Exactly.{Oracle, logging}

pub Next-cases :
    (turn : Next)
    → (turn ≡ going)
      ⊎ ((turn ≡ parked) ⊎ ((turn ≡ panicked) ⊎ ((exit : Exit) × (turn ≡ leaves exit))))
Next-cases going = inl refl
Next-cases parked = inr (inl refl)
Next-cases panicked = inr (inr (inl refl))
Next-cases (leaves exit) = inr (inr (inr (exit, refl)))

module _ (fl : Float) {Acker : Type 0} (o : Oracle Acker) (p : Receipt Acker → Bool) (k : ℕ) where
  -- Nothing that the balance counts has changed.
  abbrev pub IsSame :
      Shared (logging fl Acker o)
      → Child (logging fl Acker o)
      → Shared (logging fl Acker o)
      → Child (logging fl Acker o)
      → Type 0
  IsSame s child after kept =
      (after.store ≡ s.store)
      × (after.next_task_id ≡ s.next_task_id)
      × (kept.inflight ≡ child.inflight)
      × (kept.to_settle ≡ child.to_settle)

  pub IsSame-before :
      (n : ℕ) (s s1 s2 : Shared (logging fl Acker o))
      (child child1 child2 : Child (logging fl Acker o))
      → IsSame s child s1 child1
      → IsBalanced fl o p k n s1 child1 s2 child2
      → IsBalanced fl o p k n s child s2 child2
  IsSame-before n s s1 s2 child child1 child2 (a, b, c, e) (balance, fresh, d, low, high) =
      (rw (sym a, sym c, sym e) balance, fresh, d, rw (sym b) low, rw (sym b) high)

  pub IsSame-after :
      (n : ℕ) (s s1 s2 : Shared (logging fl Acker o))
      (child child1 child2 : Child (logging fl Acker o))
      → IsBalanced fl o p k n s child s1 child1
      → IsSame s1 child1 s2 child2
      → IsBalanced fl o p k n s child s2 child2
  IsSame-after n s s1 s2 child child1 child2 (balance, fresh, d, low, high) (a, b, c, e) =
      (rw (a, c, e) balance, rw (b, c) fresh, rw c d, rw b low, rw b high)

  pub on_answer-IsBalanced :
      (w : Meets (logging fl Acker o)) (task_id : ℕ) (outcome : Outcome)
      (s : Shared (logging fl Acker o)) (v : Serving (logging fl Acker o))
      → w.settle_open ≡ true
      → IsFresh s.next_task_id v.child.inflight
      → Distinct v.child.inflight
      → let (turn, kept) = on_answer {api = logging fl Acker o} w task_id outcome v in
        IsBalanced fl o p k 0 s v.child s kept.child
  unfolding on_answer queued_up
  on_answer-IsBalanced w task_id outcome s v takes fresh d =
      elim (Option-cases (lookup task_id v.child.inflight)) [
        | inl none_here ↦ ground (arith, none_here, fresh, d)
        | inr (job, e) ↦ ground (
          arith,
          e,
          takes,
          IsFresh-remove s.next_task_id task_id v.child.inflight fresh,
          Distinct-remove task_id v.child.inflight d,
          held-remove p task_id job v.child.inflight d e,
          queued_up-append p v.child.to_settle ((job, outcome) ∷ []),
        )
      ]

  pub check-IsSame :
      (cfg : Cfg) (w : Meets (logging fl Acker o)) (s : Shared (logging fl Acker o))
      (v : Serving (logging fl Acker o))
      → let (reading, after, kept) = check {api = logging fl Acker o} cfg w s v in
        IsSame s v.child after kept.child
  unfolding check
  check-IsSame cfg w s v = ground arith

  pub on_filled-IsSame :
      (ready : Bool) (filled : Option Filled) (s : Shared (logging fl Acker o))
      (child : Child (logging fl Acker o)) (v : Serving (logging fl Acker o))
      → let (turn, after, kept) = on_filled {api = logging fl Acker o} ready (filled, s, child) v in
        IsSame s child after kept.child
  on_filled-IsSame ready none s child v = (refl, refl, refl, refl)
  on_filled-IsSame ready (some fill_dead) s child v = (refl, refl, refl, refl)
  on_filled-IsSame true (some fill_done) s child v = (refl, refl, refl, refl)
  on_filled-IsSame false (some fill_done) s child v = (refl, refl, refl, refl)
  on_filled-IsSame ready (some fill_sent) s child v = (refl, refl, refl, refl)
  on_filled-IsSame ready (some fill_empty) s child v = (refl, refl, refl, refl)
