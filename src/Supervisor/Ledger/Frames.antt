-- ===== src/Supervisor/Ledger/Frames.antt =====
-- The balance over the frames that a child sends and the ticks of its timer (`serve_inner`, lib.rs).
use tarsk.Base.{
  All, Bool, Bool-cases, List, Option-cases, arith, inl, inr, nat_eq, true, ℕ, ◌+◌, ◌<◌, ◌^◌, ◌≡◌,
}
use tarsk.Broker.{Receipt, u64}
use tarsk.Supervisor.{Shared}
use tarsk.Wire.{Value, as_slice, as_str, as_u64, field}
use tarsk.Base.Dict.{Distinct, lookup}
use tarsk.Base.Float.{Float}
use tarsk.Supervisor.Checking.{Cfg, Meets, Serving, await_spare, check, on_child}
use tarsk.Supervisor.Dispatch.{fill, fill_empty}
use tarsk.Supervisor.Serve.{holds, on_ack, on_filled, on_nack, on_progress, on_ready}
use tarsk.Supervisor.Ledger.Events.{
  IsSame-after, IsSame-before, check-IsSame, on_answer-IsBalanced, on_filled-IsSame,
}
use tarsk.Supervisor.Ledger.Filling.{IsBalanced, IsCalm, IsFresh, IsRemote, numbers}
use tarsk.Supervisor.Ledger.Taking.{keep_progress-TakesNone}
use tarsk.Supervisor.Ledger.Turns.{IsBalanced-refl, fill-IsBalanced}
use tarsk.Supervisor.Settle.Exactly.{Oracle, logging}

module _ (fl : Float) {Acker : Type 0} (o : Oracle Acker) (p : Receipt Acker → Bool) (k : ℕ) where
  pub on_ack-IsBalanced :
      (w : Meets (logging fl Acker o)) (vs : List Value) (s : Shared (logging fl Acker o))
      (v : Serving (logging fl Acker o))
      → w.settle_open ≡ true
      → IsFresh s.next_task_id v.child.inflight
      → Distinct v.child.inflight
      → let (turn, kept) = on_ack {api = logging fl Acker o} w vs v in
        IsBalanced fl o p k 0 s v.child s kept.child
  unfolding on_ack
  on_ack-IsBalanced w vs s v takes fresh d =
      let same = IsBalanced-refl fl o p k 0 s v.child fresh d in
      elim (Bool-cases (holds vs 3)) [
        | inr short ↦ rw short same
        | inl long ↦ elim (Option-cases (field as_u64 vs 1)) [
          | inl no_id ↦ rw (long, no_id) same
          | inr (task_id, e) ↦ elim (Option-cases (field as_slice vs 2)) [
            | inl no_result ↦ rw (long, e, no_result) same
            | inr (result, f) ↦
                rw (long, e, f) (on_answer-IsBalanced fl o p k w task_id _ s v takes fresh d)
          ]
        ]
      ]

  pub on_nack-IsBalanced :
      (w : Meets (logging fl Acker o)) (vs : List Value) (s : Shared (logging fl Acker o))
      (v : Serving (logging fl Acker o))
      → w.settle_open ≡ true
      → IsFresh s.next_task_id v.child.inflight
      → Distinct v.child.inflight
      → let (turn, kept) = on_nack {api = logging fl Acker o} w vs v in
        IsBalanced fl o p k 0 s v.child s kept.child
  unfolding on_nack
  on_nack-IsBalanced w vs s v takes fresh d =
      let same = IsBalanced-refl fl o p k 0 s v.child fresh d in
      elim (Bool-cases (holds vs 4)) [
        | inr short ↦ rw short same
        | inl long ↦ elim (Option-cases (field as_u64 vs 1)) [
          | inl no_id ↦ rw (long, no_id) same
          | inr (task_id, e) ↦ elim (Option-cases (field as_str vs 2)) [
            | inl no_error ↦ rw (long, e, no_error) same
            | inr (error, f) ↦ elim (Option-cases (field as_str vs 3)) [
              | inl no_traceback ↦ rw (long, e, f, no_traceback) same
              | inr (traceback, g) ↦
                  rw (long, e, f, g) (on_answer-IsBalanced fl o p k w task_id _ s v takes fresh d)
            ]
          ]
        ]
      ]

  pub on_progress-IsBalanced :
      (vs : List Value) (s : Shared (logging fl Acker o)) (v : Serving (logging fl Acker o))
      → IsFresh s.next_task_id v.child.inflight
      → Distinct v.child.inflight
      → let (turn, after) = on_progress {api = logging fl Acker o} vs s v in
        IsBalanced fl o p k 0 s v.child after v.child
  unfolding on_progress
  on_progress-IsBalanced vs s v fresh d =
      let same = IsBalanced-refl fl o p k 0 s v.child fresh d in
      elim (Bool-cases (holds vs 3)) [
        | inr short ↦ rw short same
        | inl long ↦ elim (Option-cases (field as_u64 vs 1)) [
          | inl no_id ↦ rw (long, no_id) same
          | inr (task_id, e) ↦ elim (Option-cases (field as_slice vs 2)) [
            | inl no_blob ↦ rw (long, e, no_blob) same
            | inr (blob, f) ↦ elim (Option-cases (lookup task_id v.child.inflight)) [
              | inl absent ↦ rw (long, e, f, absent) same
              | inr (job, g) ↦
                  let quiet = keep_progress-TakesNone fl o p job blob s in
                  rw (long, e, f, g)
                    (
                      omega (arith, quiet),
                      rw quiet.0.1 fresh,
                      d,
                      omega (arith, quiet),
                      omega (arith, quiet),
                    )
            ]
          ]
        ]
      ]

  pub filled-IsBalanced :
      (cfg : Cfg) (w : Meets (logging fl Acker o)) (ready : Bool) (s : Shared (logging fl Acker o))
      (v : Serving (logging fl Acker o))
      → IsRemote o
      → All (IsCalm fl o p k) w.moments
      → IsFresh s.next_task_id v.child.inflight
      → Distinct v.child.inflight
      → s.next_task_id + numbers fl o p k w.moments < 2 ^ 64
      → let (turn, after, kept) =
          on_filled {api = logging fl Acker o} ready
            (fill {api = logging fl Acker o} cfg.pace w.moments fill_empty s v.child)
            v in
        IsBalanced fl o p k (numbers fl o p k w.moments) s v.child after kept.child
  filled-IsBalanced cfg w ready s v remote calm fresh d room =
      let (filled, after, child) =
        fill {api = logging fl Acker o} cfg.pace w.moments fill_empty s v.child in
      let (turn, later, kept) =
        on_filled {api = logging fl Acker o} ready (filled, after, child) v in
      IsSame-after fl o p k (numbers fl o p k w.moments) s after later v.child child kept.child
        (fill-IsBalanced fl o p k cfg.pace w.moments fill_empty s v.child remote calm fresh d room)
        (on_filled-IsSame fl o p k ready filled after child v)

  pub on_ready-IsBalanced :
      (cfg : Cfg) (w : Meets (logging fl Acker o)) (s : Shared (logging fl Acker o))
      (v : Serving (logging fl Acker o))
      → IsRemote o
      → All (IsCalm fl o p k) w.moments
      → IsFresh s.next_task_id v.child.inflight
      → Distinct v.child.inflight
      → s.next_task_id + numbers fl o p k w.moments < 2 ^ 64
      → let (turn, after, kept) = on_ready {api = logging fl Acker o} cfg w s v in
        IsBalanced fl o p k (numbers fl o p k w.moments) s v.child after kept.child
  unfolding on_ready
  on_ready-IsBalanced cfg w s v remote calm fresh d room =
      let n = numbers fl o p k w.moments in
      let (reading, checked_s, checked) = check {api = logging fl Acker o} cfg w s v in
      let same = check-IsSame fl o p k cfg w s v in
      let freed =
        on_child {api = logging fl Acker o} (λ child. record child { free = u64 (child.free + 1) })
          checked in
      let (turn, after, kept) =
        on_filled {api = logging fl Acker o} true
          (fill {api = logging fl Acker o} cfg.pace w.moments fill_empty checked_s freed.child)
          freed in
      elim (Option-cases (check {api = logging fl Acker o} cfg w s v).0.trigger) [
        | inr (why, e) ↦
            rw (e, on_ready)
              (IsSame-after fl o p k n s s checked_s v.child v.child
                (await_spare {api = logging fl Acker o} w checked).child
                (IsBalanced-refl fl o p k n s v.child fresh d)
                (same.0, same.1, ground (arith, same), ground (arith, same)))
        | inl none_fired ↦
            rw (none_fired, on_ready)
              (IsSame-before fl o p k n s checked_s after v.child freed.child kept.child same (
                filled-IsBalanced cfg w true checked_s freed remote calm (rw (same.1, same.2) fresh)
                  (rw same.2 d) (rw same.1 room)))
      ]
