-- ===== src/Supervisor/Draining.antt =====
-- How a child is let go (`drain` and `reap`, lib.rs): what it still answers is settled, and what it
-- does not answer is given back.
use tarsk.Base.{
  List, Option, Text, [], if◌then◌else◌, nat_eq, none, some, text, text_eq, true, ℕ, ◌++◌, ◌+◌,
  ◌==◌, ◌∷◌,
}
use tarsk.Broker.{u64}
use tarsk.Metrics.{forget_child}
use tarsk.Supervisor.{BrokerApi, Job, Outcome, Shared, count, nack}
use tarsk.Wire.{MessagePack, Value, as_slice, as_str, as_u64, decode, field, policy, read_directive}
use tarsk.Base.Dict.{Dict, lookup, remove}
use tarsk.Base.Float.{Float}
use tarsk.Base.Int.{ℤ}
use tarsk.Supervisor.Checking.{Serving, on_child}
use tarsk.Supervisor.Serve.{drain_frame, holds}
use tarsk.Supervisor.Settle.{give_back, settle}

-- How a process ends: with an exit code within the first grace, or after it was asked to stop; the
-- second is none where the system cannot tell.
pub record Ending : Type 0 where
  pub at_once : Option ℤ
  pub later_code : Option ℤ

abbrev pub ack_answer : List Value → Option (ℕ × Outcome)
ack_answer vs = elim (field as_u64 vs 1) [
  | none ↦ none
  | some task_id ↦ elim (field as_slice vs 2) [
    | none ↦ none
    | some result ↦ some (
      task_id,
      record {
        succeeded = true;
        result = result;
        error_type = [];
        traceback = [];
        directive = policy;
      },
    )
  ]
]

abbrev pub nack_answer : List Value → Option (ℕ × Outcome)
nack_answer vs = elim (field as_u64 vs 1) [
  | none ↦ none
  | some task_id ↦ elim (field as_str vs 2) [
    | none ↦ none
    | some error ↦ elim (field as_str vs 3) [
      | none ↦ none
      | some traceback ↦
          some (task_id, record (nack error traceback) { directive = read_directive vs })
    ]
  ]
]

-- How a turn of draining ends. `crashes` is an index out of range.
pub data Drained : Type 0 where
  drains stops crashes : Drained

module _ {fl : Float} {api : BrokerApi fl} where
  abbrev pub push_exit : ℤ → Shared api → Shared api
  push_exit code s = record s { exits = s.exits ++ (code ∷ []) }

  -- The Drain frame is written first.
  abbrev pub ask_to_drain : Serving api → Serving api
  ask_to_drain = on_child (λ child. record child { frames = drain_frame ∷ child.frames })

module _ {fl : Float} {api : BrokerApi fl} (pack : MessagePack) where
  -- Every job of a map, in the order of its entries.
  unfoldable pub give_back_all : Dict ℕ (Job api.Acker) → Shared api → Shared api
  give_back_all [] s = s
  give_back_all ((task_id, job) ∷ rest) s = give_back_all rest (give_back pack job s)

  unfoldable pub reap : Ending → Serving api → Shared api → Shared api
  reap ending v s =
      let forgotten = record s { metrics = forget_child v.pid s.metrics } in
      give_back_all v.child.inflight (elim ending.at_once [
        | some code ↦ push_exit code forgotten
        | none ↦
            let killed = count (λ c. record c { kills = u64 (c.kills + 1) }) forgotten in
            elim ending.later_code [ none ↦ killed | some code ↦ push_exit code killed ]
      ])

  -- An answer of a child that drains is settled on the spot.
  unfoldable pub settle_answer :
      (now task_id : ℕ) → Outcome → Shared api → Serving api → Shared api × Serving api
  settle_answer now task_id outcome s v = elim (lookup task_id v.child.inflight) [
    | none ↦ (s, v)
    | some job ↦ (
      settle pack now job outcome s,
      on_child (λ child. record child { inflight = remove task_id child.inflight }) v,
    )
  ]

  abbrev pub settle_some :
      (now : ℕ)
      → Option (ℕ × Outcome)
      → Shared api
      → Serving api
      → Drained × Shared api × Serving api
  settle_some now none s v = (drains, s, v)
  settle_some now (some (task_id, outcome)) s v =
      let (after, kept) = settle_answer now task_id outcome s v in (drains, after, kept)

  -- One frame, or the end of the channel.
  unfoldable pub drain_turn :
      (now : ℕ) → Option Text → Shared api → Serving api → Drained × Shared api × Serving api
  drain_turn now incoming s v = elim incoming [
    | none ↦ (stops, s, v)
    | some body ↦ elim (decode pack body) [
      | none ↦ (stops, s, v)
      | some vs ↦ elim (field as_str vs 0) [
        | none ↦ (drains, s, v)
        | some word ↦
            if word == text "Ack"
            then (if holds vs 3 then settle_some now (ack_answer vs) s v else (crashes, s, v))
            else if word == text "Nack"
            then (if holds vs 4 then settle_some now (nack_answer vs) s v else (crashes, s, v))
            else (drains, s, v)
      ]
    ]
  ]

  -- The frames that come before the deadline, each at its time.
  unfoldable pub drain_loop :
      List (ℕ × Option Text) → Shared api → Serving api → Drained × Shared api × Serving api
  drain_loop [] s v = (stops, s, v)
  drain_loop ((now, incoming) ∷ frames) s v =
      let (turn, after, kept) = drain_turn now incoming s v in
      elim turn [
        | drains ↦ drain_loop frames after kept
        | stops ↦ (stops, after, kept)
        | crashes ↦ (crashes, after, kept)
      ]

  unfoldable pub drain :
      Ending → List (ℕ × Option Text) → Serving api → Shared api → Drained × Shared api
  drain ending frames v s =
      let (turn, after, kept) = drain_loop frames s (ask_to_drain v) in
      elim turn [
        | crashes ↦ (crashes, after)
        | drains ↦ (stops, reap ending kept after)
        | stops ↦ (stops, reap ending kept after)
      ]
