-- ===== src/Broker/Amqp/Ordering.antt =====
-- In which order AmqpBroker (broker.rs) asks its server for things.
use tarsk.Base.{
  Bool, Bool-cases, List, Res, Text, [], arith, err, false, if◌then◌else◌, inl, inr, is_err, nat_eq,
  not, refl, text_eq, true, ℕ, ◌++◌, ◌+◌, ◌==◌, ◌∷◌, ◌≡◌, ◌⊎◌,
}
use tarsk.Broker.{AmqpRecord, amqp, as_millis, stream_key, u32, u64}
use tarsk.Base.Dict.{contains_key, set_insert}
use tarsk.Broker.Amqp.{FieldTable, encode}
use tarsk.Broker.Running.{after, ◌>>=◌}
use tarsk.Broker.Amqp.Client.{AmqpBroker, Run, ask, declare_once, declare_plain}
use tarsk.Broker.Amqp.Dead.{bury_headers, dead_key, dead_letter, enforce_cap}
use tarsk.Broker.Amqp.Driver.{delay_key, delay_queue, publish_record, ready_at, retry, target_for}
use tarsk.Broker.Amqp.Growing.{Grows, enforce_cap-Grows}
use tarsk.Broker.Amqp.Log.{AmqpCall, Log, Oracle, acked, declared_queue, logging, published}

-- The deliveries that the server was asked to settle for good, with success or not.
unfoldable pub acks : {Acker : Type 0} → Log Acker → List Acker
acks [] = []
acks ((acked acker, fine) ∷ log) = acker ∷ acks log
acks ((_, fine) ∷ log) = acks log

abbrev pub again : AmqpRecord → AmqpRecord
again r = record r { attempt = u32 (r.attempt + 1) }

abbrev pub retry_target : (queue : Text) → (delay : ℕ) → Text
retry_target queue delay =
    if delay == 0 then stream_key queue else delay_key queue (u64 (as_millis delay))

module _ {Acker : Type 0} (o : Oracle Acker) where
  publish_and_ack :
      (target body : Text) (headers : FieldTable) (acker : Acker) (b : AmqpBroker (logging o))
      → let (answer, after) =
          (ask {client = logging o} ((logging o).publish target body headers) >>= λ _.
          ask {client = logging o} ((logging o).ack acker))
            b in
        ((answer ≡ err) × (acks after.server ≡ acks b.server))
        ⊎ ((fine : Bool) × (before : Log Acker) × (after.server
              ≡ (acked acker, fine) ∷ (published target body headers, true) ∷ before)
            × (acks before ≡ acks b.server)
            × (is_err answer ≡ not fine))
  unfolding acks
  publish_and_ack target body headers acker b = elim (Bool-cases (o.fails b.server)) [
    | inl fails ↦ inl (ground (arith, fails), ground (arith, fails))
    | inr fine ↦ inr (
      not (o.fails ((published target body headers, true) ∷ b.server)),
      b.server,
      ground (arith, fine),
      refl,
      ground (arith, fine),
    )
  ]

  -- Whatever the server answers, a retry either fails without asking for the ack of the delivery, or
  -- asks for it last, right after the job was published with one attempt more, and the publish was
  -- confirmed; then it succeeds as the ack does. So no crash loses the job.
  pub retry-publishes_first :
      (now : ℕ) (queue : Text) (acker : Acker) (r : AmqpRecord) (delay : ℕ)
      (b : AmqpBroker (logging o))
      → let (answer, after) = retry {client = logging o} now (amqp queue acker r) delay b in
        ((answer ≡ err) × (acks after.server ≡ acks b.server))
        ⊎ ((fine : Bool) × (before : Log Acker) × (after.server
              ≡ (acked acker, fine)
                ∷ (
                  published
                      (retry_target queue delay)
                      r.payload
                      (encode (again r) (ready_at now delay) []),
                  true,
                )
                ∷ before)
            × (acks before ≡ acks b.server)
            × (is_err answer ≡ not fine))
  unfolding retry target_for delay_queue publish_record acks
  retry-publishes_first now queue acker r delay b = elim (Bool-cases (delay == 0)) [
    | inl soon ↦ rw soon (
        publish_and_ack (stream_key queue) r.payload (encode (again r) (ready_at now delay) [])
          acker b)
    | inr later ↦ elim (Bool-cases (o.fails b.server)) [
      | inl fails ↦ inl (ground (arith, later, fails), ground (arith, later, fails))
      | inr fine ↦
          rw (later, fine)
            (publish_and_ack (delay_key queue (u64 (as_millis delay))) r.payload
              (encode (again r) (ready_at now delay) []) acker
              (record b {
                server =
                    (declared_queue (delay_key queue (u64 (as_millis delay))), true) ∷ b.server;
              }))
    ]
  ]

  -- The delivery is not settled, or asked for only right after its copy was confirmed.
  abbrev pub Careful :
      (acker : Acker) (copy : AmqpCall Acker) (b : AmqpBroker (logging o))
      → Res (Unit {0}) × AmqpBroker (logging o)
      → Type 0
  Careful acker copy b r =
      ((r.0 ≡ err) × (acks r.1.server ≡ acks b.server))
      ⊎ ((fine : Bool) × (before later : Log Acker) × (r.1.server
            ≡ later ++ (acked acker, fine) ∷ (copy, true) ∷ before)
          × (acks before ≡ acks b.server)
          × ((fine ≡ true) ⊎ (r.0 ≡ err)))

  publish_ack_then :
      (target body : Text) (headers : FieldTable) (acker : Acker)
      (then_ : Run (logging o) (Unit {0})) (b : AmqpBroker (logging o))
      → Grows o then_
      → Careful acker (published target body headers) b (
          (ask {client = logging o} ((logging o).publish target body headers) >>= λ _.
          ask {client = logging o} ((logging o).ack acker) >>= λ _. then_)
            b)
  unfolding acks
  publish_ack_then target body headers acker then_ b grows = elim (Bool-cases (o.fails b.server)) [
    | inl fails ↦ inl (ground (arith, fails), ground (arith, fails))
    | inr fine ↦ elim (Bool-cases (o.fails ((published target body headers, true) ∷ b.server))) [
      | inl fails ↦ inr (
        false,
        b.server,
        [],
        ground (arith, fine, fails),
        refl,
        inr (ground (arith, fine, fails)),
      )
      | inr well ↦
          let there : AmqpBroker (logging o) = record b {
            server = (acked acker, true) ∷ (published target body headers, true) ∷ b.server;
          } in
          rw (fine, well) (inr (true, b.server, (grows there).0, (grows there).1, refl, inl refl))
    ]
  ]

  -- Whatever the server answers, a dead letter either fails without asking for the ack of the
  -- delivery, or asks for it right after the job was published to the dead letters, with its error,
  -- and the publish was confirmed. It fails where the ack fails.
  pub dead_letter-publishes_first :
      (died now : ℕ) (queue : Text) (acker : Acker) (r : AmqpRecord) (error traceback : Text)
      (keep : ℕ) (b : AmqpBroker (logging o))
      → Careful acker
          (published (dead_key queue) r.payload (encode r now (bury_headers error traceback died)))
          b
          (dead_letter {client = logging o} died now (amqp queue acker r) error traceback keep b)
  unfolding dead_letter declare_once declare_plain publish_record acks
  dead_letter-publishes_first died now queue acker r error traceback keep b =
      let headers = encode r now (bury_headers error traceback died) in
      elim (Bool-cases (contains_key (dead_key queue) b.declared)) [
        | inl known ↦ rw known (
            publish_ack_then (dead_key queue) r.payload headers acker
              (enforce_cap {client = logging o} (dead_key queue) keep) b
              (enforce_cap-Grows o (dead_key queue) keep))
        | inr unknown ↦ elim (Bool-cases (o.fails b.server)) [
          | inl fails ↦ inl (ground (arith, unknown, fails), ground (arith, unknown, fails))
          | inr fine ↦
              rw (unknown, fine)
                (publish_ack_then (dead_key queue) r.payload headers acker
                  (enforce_cap {client = logging o} (dead_key queue) keep)
                  (record b {
                    server = (declared_queue (dead_key queue), true) ∷ b.server;
                    declared = (set_insert (dead_key queue) b.declared).0;
                  })
                  (enforce_cap-Grows o (dead_key queue) keep))
        ]
      ]
