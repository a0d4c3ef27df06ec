-- ===== src/Supervisor/Ledger/Leaving.antt =====
-- How a child is let go (`reap`, `drain` and the end of `slot`, lib.rs), in the counts of the
-- ledger.
use tarsk.Base.{
  Bool, List, Option, Option-cases, Text, [], arith, inl, inr, nat_eq, none, refl, some, ℕ, ◌+◌,
  ◌∷◌, ◌≡◌, ◌⊎◌,
}
use tarsk.Broker.{Receipt, u64}
use tarsk.Metrics.{forget_child}
use tarsk.Supervisor.{Outcome, Shared, count}
use tarsk.Wire.{MessagePack, as_str, decode, field}
use tarsk.Base.Dict.{Distinct, Distinct-remove, lookup}
use tarsk.Base.Float.{Float}
use tarsk.Supervisor.Checking.{Serving}
use tarsk.Supervisor.Draining.{
  Drained, Ending, ack_answer, ask_to_drain, crashes, drain, drain_loop, drain_turn, drains,
  nack_answer, push_exit, reap, settle_answer, settle_some, stops,
}
use tarsk.Supervisor.Ledger.{held, held-remove, settled, settled-give_back_all, settled-settle}
use tarsk.Supervisor.Settle.Exactly.{Oracle, logging}

Drained-cases : (turn : Drained) → (turn ≡ drains) ⊎ ((turn ≡ stops) ⊎ (turn ≡ crashes))
Drained-cases drains = inl refl
Drained-cases stops = inr (inl refl)
Drained-cases crashes = inr (inr refl)

module _ (fl : Float) {Acker : Type 0} (o : Oracle Acker) (pack : MessagePack)
    (p : Receipt Acker → Bool) where
  -- A child that is gone has each job it still held settled once, however it ended.
  pub settled-reap :
      (ending : Ending) (v : Serving (logging fl Acker o)) (s : Shared (logging fl Acker o))
      → settled p (reap {api = logging fl Acker o} pack ending v s).store
        ≡ held p v.child.inflight + settled p s.store
  unfolding reap
  settled-reap ending v s =
      let forgotten : Shared (logging fl Acker o) = record s {
        metrics = forget_child v.pid s.metrics;
      } in
      let killed =
        count {api = logging fl Acker o} (λ c. record c { kills = u64 (c.kills + 1) }) forgotten in
      elim (Option-cases ending.at_once) [
        | inr (code, e) ↦ ground (
          arith,
          e,
          settled-give_back_all fl o pack p v.child.inflight
              (push_exit {api = logging fl Acker o} code forgotten),
        )
        | inl slow ↦ elim (Option-cases ending.later_code) [
          | inr (code, e) ↦ ground (
            arith,
            slow,
            e,
            settled-give_back_all fl o pack p v.child.inflight
                (push_exit {api = logging fl Acker o} code killed),
          )
          | inl unknown ↦
              ground
                (arith, slow, unknown, settled-give_back_all fl o pack p v.child.inflight killed)
        ]
      ]

  -- What a turn of draining leaves: the sum of what is settled and what is in flight, and a map.
  abbrev Balanced :
      Shared (logging fl Acker o)
      → Serving (logging fl Acker o)
      → Shared (logging fl Acker o)
      → Serving (logging fl Acker o)
      → Type 0
  Balanced s v after kept =
      (settled p after.store + held p kept.child.inflight
        ≡ settled p s.store + held p v.child.inflight)
      × Distinct kept.child.inflight

  settle_answer-Balanced :
      (now task_id : ℕ) (outcome : Outcome) (s : Shared (logging fl Acker o))
      (v : Serving (logging fl Acker o))
      → Distinct v.child.inflight
      → let (after, kept) = settle_answer {api = logging fl Acker o} pack now task_id outcome s v in
        Balanced s v after kept
  unfolding settle_answer
  settle_answer-Balanced now task_id outcome s v d =
      elim (Option-cases (lookup task_id v.child.inflight)) [
        | inl none_here ↦ ground (arith, none_here, d)
        | inr (job, e) ↦ ground (
          arith,
          e,
          Distinct-remove task_id v.child.inflight d,
          held-remove p task_id job v.child.inflight d e,
          settled-settle fl o pack p now job outcome s,
        )
      ]

  settle_some-Balanced :
      (now : ℕ) (answer : Option (ℕ × Outcome)) (s : Shared (logging fl Acker o))
      (v : Serving (logging fl Acker o))
      → Distinct v.child.inflight
      → let (turn, after, kept) = settle_some {api = logging fl Acker o} pack now answer s v in
        Balanced s v after kept
  settle_some-Balanced now none s v d = (refl, d)
  settle_some-Balanced now (some (task_id, outcome)) s v d =
      settle_answer-Balanced now task_id outcome s v d

  drain_turn-Balanced :
      (now : ℕ) (incoming : Option Text) (s : Shared (logging fl Acker o))
      (v : Serving (logging fl Acker o))
      → Distinct v.child.inflight
      → let (turn, after, kept) = drain_turn {api = logging fl Acker o} pack now incoming s v in
        Balanced s v after kept
  unfolding drain_turn
  drain_turn-Balanced now none s v d = (refl, d)
  drain_turn-Balanced now (some body) s v d = elim (Option-cases (decode pack body)) [
    | inl garbled ↦ ground (arith, garbled, d)
    | inr (vs, e) ↦ elim (Option-cases (field as_str vs 0)) [
      | inl wordless ↦ ground (arith, e, wordless, d)
      | inr (word, f) ↦ ground (
        arith,
        e,
        f,
        d,
        settle_some-Balanced now (ack_answer vs) s v d,
        settle_some-Balanced now (nack_answer vs) s v d,
      )
    ]
  ]

  drain_loop-Balanced :
      (frames : List (ℕ × Option Text)) (s : Shared (logging fl Acker o))
      (v : Serving (logging fl Acker o))
      → Distinct v.child.inflight
      → let (turn, after, kept) = drain_loop {api = logging fl Acker o} pack frames s v in
        Balanced s v after kept
  unfolding drain_loop
  drain_loop-Balanced [] s v d = (refl, d)
  drain_loop-Balanced ((now, incoming) ∷ frames) s v d =
      let (turn, after, kept) = drain_turn {api = logging fl Acker o} pack now incoming s v in
      let here = drain_turn-Balanced now incoming s v d in
      ground (arith, here, drain_loop-Balanced frames after kept here.1)

  -- What draining leaves of a child that holds distinct tasks: every job it held is settled once,
  -- whatever the child sends, unless an Ack or a Nack is too short.
  pub settled-drain :
      (ending : Ending) (frames : List (ℕ × Option Text)) (v : Serving (logging fl Acker o))
      (s : Shared (logging fl Acker o))
      → Distinct v.child.inflight
      → (drain {api = logging fl Acker o} pack ending frames v s).0 ≡ stops
      → settled p (drain {api = logging fl Acker o} pack ending frames v s).1.store
        ≡ held p v.child.inflight + settled p s.store
  unfolding drain
  settled-drain ending frames v s d h =
      let told = ask_to_drain {api = logging fl Acker o} v in
      let (turn, after, kept) = drain_loop {api = logging fl Acker o} pack frames s told in
      elim (Drained-cases (drain_loop {api = logging fl Acker o} pack frames s told).0) [
        | inl e ↦
            ground
              (arith, e, h, drain_loop-Balanced frames s told d, settled-reap ending kept after)
        | inr other ↦ elim other [
          | inl e ↦
              ground
                (arith, e, h, drain_loop-Balanced frames s told d, settled-reap ending kept after)
          | inr e ↦ absurd (ground (arith, e, h))
        ]
      ]
