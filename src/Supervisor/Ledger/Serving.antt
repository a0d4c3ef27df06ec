-- ===== src/Supervisor/Ledger/Serving.antt =====
-- The balance over all that happens to a child while a slot serves it (`serve_inner` and
-- `settle_task`, lib.rs).
use tarsk.Base.{
  All, Bool, Bool-cases, List, Option, Option-cases, Text, [], arith, inl, inr, nat_eq, none, refl,
  some, text, text_eq, true, ℕ, ◌+◌, ◌<◌, ◌==◌, ◌^◌, ◌∷◌, ◌≡◌, ◌⊎◌,
}
use tarsk.Broker.{Receipt}
use tarsk.Supervisor.{Shared}
use tarsk.Wire.{MessagePack, as_str, decode, field}
use tarsk.Base.Dict.{Distinct}
use tarsk.Base.Float.{Float}
use tarsk.Supervisor.Checking.{Cfg, Meets, Serving}
use tarsk.Supervisor.Dispatch.{Child}
use tarsk.Supervisor.Ledger.{queued_up, settled-settle}
use tarsk.Supervisor.Loop.{
  Event, meanwhile, on_event, received, settle_next, settling, spawned_spare, ticked,
}
use tarsk.Supervisor.Serve.{on_ack, on_frame, on_nack, on_progress, on_spare}
use tarsk.Supervisor.Ledger.Filling.{
  IsApart, IsBalanced, IsCalm, IsFresh, IsFresh-raise, IsRemote, numbers,
}
use tarsk.Supervisor.Ledger.Frames.{
  on_ack-IsBalanced, on_nack-IsBalanced, on_progress-IsBalanced, on_ready-IsBalanced,
}
use tarsk.Supervisor.Ledger.Taking.{settle-TakesNone}
use tarsk.Supervisor.Ledger.Ticks.{on_tick-IsBalanced}
use tarsk.Supervisor.Ledger.Turns.{IsBalanced-refl, IsBalanced-widen}
use tarsk.Supervisor.Settle.Exactly.{Oracle, logging}

List-cases {ℓ} :
    {A : Type ℓ} (xs : List A) → (xs ≡ []) ⊎ ((x : A) × (rest : List A) × (xs ≡ x ∷ rest))
List-cases [] = inl refl
List-cases (x ∷ rest) = inr (x, rest, refl)

module _ (fl : Float) {Acker : Type 0} (o : Oracle Acker) (pack : MessagePack)
    (p : Receipt Acker → Bool) (k : ℕ) where
  -- While the settle task takes outcomes, and while the other tasks leave the deliveries that are
  -- counted alone.
  abbrev pub IsOrderly : Event (logging fl Acker o) → Type 0
  IsOrderly (received w body) = (w.settle_open ≡ true) × All (IsCalm fl o p k) w.moments
  IsOrderly (ticked w) = All (IsCalm fl o p k) w.moments
  IsOrderly (spawned_spare now ready) = Unit
  IsOrderly (settling now) = Unit
  IsOrderly (meanwhile acts) = IsApart fl o p k acts

  abbrev pub event_numbers : Event (logging fl Acker o) → ℕ
  event_numbers (received w body) = numbers fl o p k w.moments
  event_numbers (ticked w) = numbers fl o p k w.moments
  event_numbers (spawned_spare now ready) = 0
  event_numbers (settling now) = 0
  event_numbers (meanwhile acts) = k

  -- The task numbers that the events may use up.
  unfoldable pub all_numbers : List (Event (logging fl Acker o)) → ℕ
  all_numbers [] = 0
  all_numbers (e ∷ es) = event_numbers e + all_numbers es

  on_frame-IsBalanced :
      (cfg : Cfg) (w : Meets (logging fl Acker o)) (body : Option Text)
      (s : Shared (logging fl Acker o)) (v : Serving (logging fl Acker o))
      → IsRemote o
      → IsOrderly (received w body)
      → IsFresh s.next_task_id v.child.inflight
      → Distinct v.child.inflight
      → s.next_task_id + numbers fl o p k w.moments < 2 ^ 64
      → let (turn, after, kept) = on_frame {api = logging fl Acker o} pack cfg w body s v in
        IsBalanced fl o p k (numbers fl o p k w.moments) s v.child after kept.child
  unfolding on_frame
  on_frame-IsBalanced cfg w none s v remote orderly fresh d room =
      IsBalanced-refl fl o p k (numbers fl o p k w.moments) s v.child fresh d
  on_frame-IsBalanced cfg w (some body) s v remote orderly fresh d room =
      let n = numbers fl o p k w.moments in
      let same = IsBalanced-refl fl o p k n s v.child fresh d in
      elim (Option-cases (decode pack body)) [
        | inl garbled ↦ rw (garbled, on_frame) same
        | inr (vs, e) ↦ elim (Option-cases (field as_str vs 0)) [
          | inl wordless ↦ rw (e, wordless, on_frame) same
          | inr (word, f) ↦ elim (Bool-cases (word == text "Ready")) [
            | inl ready ↦
                rw (e, f, ready, on_frame)
                  (on_ready-IsBalanced fl o p k cfg w s v remote orderly.1 fresh d room)
            | inr not_ready ↦ elim (Bool-cases (word == text "Ack")) [
              | inl acks ↦
                  rw (e, f, not_ready, acks, on_frame)
                    (IsBalanced-widen fl o p k n s s v.child
                      (on_ack {api = logging fl Acker o} w vs v).1.child
                      (on_ack-IsBalanced fl o p k w vs s v orderly.0 fresh d))
              | inr not_ack ↦ elim (Bool-cases (word == text "Nack")) [
                | inl nacks ↦
                    rw (e, f, not_ready, not_ack, nacks, on_frame)
                      (IsBalanced-widen fl o p k n s s v.child
                        (on_nack {api = logging fl Acker o} w vs v).1.child
                        (on_nack-IsBalanced fl o p k w vs s v orderly.0 fresh d))
                | inr not_nack ↦ elim (Bool-cases (word == text "Progress")) [
                  | inl progress ↦
                      rw (e, f, not_ready, not_ack, not_nack, progress, on_frame)
                        (IsBalanced-widen fl o p k n s
                          (on_progress {api = logging fl Acker o} vs s v).1 v.child v.child
                          (on_progress-IsBalanced fl o p k vs s v fresh d))
                  | inr unknown ↦ rw (e, f, not_ready, not_ack, not_nack, unknown, on_frame) same
                ]
              ]
            ]
          ]
        ]
      ]

  settle_next-IsBalanced :
      (now : ℕ) (s : Shared (logging fl Acker o)) (child : Child (logging fl Acker o))
      → IsFresh s.next_task_id child.inflight
      → Distinct child.inflight
      → let (after, kept) = settle_next {api = logging fl Acker o} pack now s child in
        IsBalanced fl o p k 0 s child after kept
  unfolding settle_next queued_up
  settle_next-IsBalanced now s child fresh d = elim (List-cases child.to_settle) [
    | inl empty ↦ ground (arith, empty, fresh, d)
    | inr (first, rest, e) ↦
        let (job, outcome) = first in
        let quiet = settle-TakesNone fl o pack p now job outcome s in
        let ends = settled-settle fl o pack p now job outcome s in
        rw e (
          omega (arith, quiet, ends),
          rw quiet.1 fresh,
          d,
          omega (arith, quiet),
          omega (arith, quiet),
        )
  ]

  pub on_event-IsBalanced :
      (cfg : Cfg) (e : Event (logging fl Acker o)) (s : Shared (logging fl Acker o))
      (v : Serving (logging fl Acker o))
      → IsRemote o
      → IsOrderly e
      → IsFresh s.next_task_id v.child.inflight
      → Distinct v.child.inflight
      → s.next_task_id + event_numbers e < 2 ^ 64
      → let (turn, after, kept) = on_event {api = logging fl Acker o} pack cfg e s v in
        IsBalanced fl o p k (event_numbers e) s v.child after kept.child
  unfolding on_event on_spare
  on_event-IsBalanced cfg (received w body) s v remote orderly fresh d room =
      on_frame-IsBalanced cfg w body s v remote orderly fresh d room
  on_event-IsBalanced cfg (ticked w) s v remote orderly fresh d room =
      on_tick-IsBalanced fl o p k cfg w s v remote orderly fresh d room
  on_event-IsBalanced cfg (spawned_spare now ready) s v remote orderly fresh d room =
      elim (Bool-cases ready) [
        | inl up ↦ rw up (IsBalanced-refl fl o p k 0 s v.child fresh d)
        | inr down ↦ rw down (IsBalanced-refl fl o p k 0 s v.child fresh d)
      ]
  on_event-IsBalanced cfg (settling now) s v remote orderly fresh d room =
      settle_next-IsBalanced now s v.child fresh d
  on_event-IsBalanced cfg (meanwhile acts) s v remote orderly fresh d room =
      let apart = orderly s in
      (
        omega (arith, apart),
        IsFresh-raise s.next_task_id (acts s).next_task_id v.child.inflight apart.2 fresh,
        d,
        apart.2,
        apart.3,
      )
