-- ===== src/Supervisor/Ledger/Whole.antt =====
-- The balance of a whole service of a child (`serve`, lib.rs).
use tarsk.Base.{All, Bool, List, [], arith, inl, inr, nat_eq, refl, ℕ, ◌+◌, ◌<◌, ◌^◌, ◌∙◌, ◌∷◌, ◌≡◌}
use tarsk.Broker.{Receipt}
use tarsk.Supervisor.{Job, Outcome, Shared}
use tarsk.Wire.{MessagePack}
use tarsk.Base.Dict.{Distinct}
use tarsk.Base.Float.{Float}
use tarsk.Supervisor.Checking.{Cfg, Exit, Serving, leaves}
use tarsk.Supervisor.Ledger.{held, queued_up, settled, settled-settle_all}
use tarsk.Supervisor.Loop.{Event, on_event, serve, serve_inner, settle_all}
use tarsk.Supervisor.Settle.{settle}
use tarsk.Supervisor.Ledger.Events.{Next-cases}
use tarsk.Supervisor.Ledger.Filling.{IsBalanced, IsFresh, IsRemote}
use tarsk.Supervisor.Ledger.Serving.{IsOrderly, all_numbers, event_numbers, on_event-IsBalanced}
use tarsk.Supervisor.Ledger.Taking.{TakesNone, settle-TakesNone, taken}
use tarsk.Supervisor.Ledger.Turns.{IsBalanced-refl, IsBalanced-trans}
use tarsk.Supervisor.Settle.Exactly.{Oracle, logging}

module _ (fl : Float) {Acker : Type 0} (o : Oracle Acker) (pack : MessagePack)
    (p : Receipt Acker → Bool) (k : ℕ) where
  serve_inner-IsBalanced :
      (cfg : Cfg) (es : List (Event (logging fl Acker o))) (s : Shared (logging fl Acker o))
      (v : Serving (logging fl Acker o))
      → IsRemote o
      → All (IsOrderly fl o pack p k) es
      → IsFresh s.next_task_id v.child.inflight
      → Distinct v.child.inflight
      → s.next_task_id + all_numbers fl o pack p k es < 2 ^ 64
      → let (turn, after, kept) = serve_inner {api = logging fl Acker o} pack cfg es s v in
        IsBalanced fl o p k (all_numbers fl o pack p k es) s v.child after kept.child
  unfolding serve_inner all_numbers
  serve_inner-IsBalanced cfg [] s v remote orderly fresh d room =
      IsBalanced-refl fl o p k 0 s v.child fresh d
  serve_inner-IsBalanced cfg (e ∷ es) s v remote orderly fresh d room =
      let n = event_numbers fl o pack p k e in
      let rest = all_numbers fl o pack p k es in
      let (turn, after, kept) = on_event {api = logging fl Acker o} pack cfg e s v in
      let (last_turn, last, at_last) =
        serve_inner {api = logging fl Acker o} pack cfg es after kept in
      let here =
        on_event-IsBalanced fl o pack p k cfg e s v remote orderly.0 fresh d
          (omega (arith, room)) in
      let stays =
        IsBalanced-trans fl o p k n rest s after after v.child kept.child kept.child here
          (IsBalanced-refl fl o p k rest after kept.child here.1 here.2) in
      elim (Next-cases (on_event {api = logging fl Acker o} pack cfg e s v).0) [
        | inl goes ↦
            rw (goes, serve_inner)
              (IsBalanced-trans fl o p k n rest s after last v.child kept.child at_last.child here (
                serve_inner-IsBalanced cfg es after kept remote orderly.1 here.1 here.2
                  (omega (arith, here, room))))
        | inr (inl parks) ↦ rw (parks, serve_inner) stays
        | inr (inr (inl panics)) ↦ rw (panics, serve_inner) stays
        | inr (inr (inr (exit, leaving))) ↦ rw (leaving, serve_inner) stays
      ]

  settle_all-TakesNone :
      (now : ℕ) (xs : List (Job Acker × Outcome)) (s : Shared (logging fl Acker o))
      → TakesNone fl o p s (settle_all {api = logging fl Acker o} pack now xs s)
  unfolding settle_all
  settle_all-TakesNone now [] s = (refl, refl)
  settle_all-TakesNone now ((job, outcome) ∷ xs) s =
      let quiet = settle-TakesNone fl o pack p now job outcome s in
      let later =
        settle_all-TakesNone now xs (settle {api = logging fl Acker o} pack now job outcome s) in
      (later.0 ∙ quiet.0, later.1 ∙ quiet.1)

  -- While a slot serves a child, its deliveries balance: what the claims brought, what was in flight
  -- and what waited to be settled before is afterwards settled with the broker, in flight, or waits
  -- to be settled, each as often as it was there; and nothing waits any longer where the slot has left
  -- the child. It holds of every choice of deliveries to count that the other tasks do not take or
  -- settle, for whatever the child sends, whatever calls of the broker fail, and in whatever order
  -- things happen. The broker's deliveries carry a receipt of their own, the settle task runs, the
  -- ids in flight are below the next one, the other tasks use up at most `k` task numbers at a time,
  -- and the numbers do not reach 2^64.
  pub serve_balances :
      (cfg : Cfg) (es : List (Event (logging fl Acker o))) (now : ℕ)
      (s : Shared (logging fl Acker o)) (v : Serving (logging fl Acker o))
      → IsRemote o
      → All (IsOrderly fl o pack p k) es
      → IsFresh s.next_task_id v.child.inflight
      → Distinct v.child.inflight
      → s.next_task_id + all_numbers fl o pack p k es < 2 ^ 64
      → let (turn, after, kept) = serve {api = logging fl Acker o} pack cfg es now s v in
        (settled p after.store
            + held p kept.child.inflight
            + queued_up p kept.child.to_settle
            + taken o p s.store
          ≡ settled p s.store
            + held p v.child.inflight
            + queued_up p v.child.to_settle
            + taken o p after.store)
        × Distinct kept.child.inflight
        × ((exit : Exit) → turn ≡ leaves exit → kept.child.to_settle ≡ [])
  unfolding serve queued_up
  serve_balances cfg es now s v remote orderly fresh d room =
      let (turn, after, kept) = serve_inner {api = logging fl Acker o} pack cfg es s v in
      let whole = serve_inner-IsBalanced cfg es s v remote orderly fresh d room in
      let ends = settled-settle_all fl o pack p now kept.child.to_settle after in
      let quiet = settle_all-TakesNone now kept.child.to_settle after in
      elim (Next-cases (serve_inner {api = logging fl Acker o} pack cfg es s v).0) [
        | inl goes ↦ rw (goes, serve) (whole.0, whole.2, λ exit h. cc)
        | inr (inl parks) ↦ rw (parks, serve) (whole.0, whole.2, λ exit h. cc)
        | inr (inr (inl panics)) ↦ rw (panics, serve) (whole.0, whole.2, λ exit h. cc)
        | inr (inr (inr (exit, leaving))) ↦
            rw (leaving, serve) (omega (arith, whole, ends, quiet), whole.2, λ left h. refl)
      ]
