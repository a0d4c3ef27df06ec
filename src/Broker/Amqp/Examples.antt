-- ===== src/Broker/Amqp/Examples.antt =====
-- The theorems on AmqpBroker at concrete queues, jobs and servers.
use tarsk.Base.{
  Bool, List, Text, [], arith, err, false, if◌then◌else◌, is_err, length, nat_eq, none, not, ok,
  refl, some, text, text_eq, true, ℕ, ◌%◌, ◌==◌, ◌∷◌, ◌≡◌, ◌⊎◌,
}
use tarsk.Broker.{AmqpRecord, NewJob, amqp, stream_key}
use tarsk.Base.Dict.{insert, lookup, remove}
use tarsk.Broker.Amqp.{encode}
use tarsk.Broker.Running.{after}
use tarsk.Broker.Amqp.Client.{AmqpBroker, Message}
use tarsk.Broker.Amqp.Dead.{Seen, bury_headers, dead_drain, dead_key, dead_letter, peek}
use tarsk.Broker.Amqp.Draining.{drained, moves, onto, others, wanted, went_back}
use tarsk.Broker.Amqp.Driver.{claim_pass, connect, delay_key, push, received_message, retry}
use tarsk.Broker.Amqp.Log.{Log, Oracle, acked, is_safe, logging, published}
use tarsk.Broker.Amqp.Ordering.{
  Careful, acks, again, dead_letter-publishes_first, retry-publishes_first,
}
use tarsk.Broker.Amqp.Priority.{IsFirst, claim_pass-priority}
use tarsk.Broker.Amqp.Tally.{counting_server, counting_server-CountsMessages}
use tarsk.Broker.Amqp.Counting.Arriving.{dead_letter-caps, push-arrives}
use tarsk.Broker.Amqp.Draining.Once.{dead_drain-settles}
use tarsk.Broker.Amqp.Safe.Reached.{buries, further, publishes_declared, pushes, stay}

abbrev queue_name : Text
queue_name = text "default"

abbrev low_name : Text
low_name = text "low"

abbrev carried_job : AmqpRecord
carried_job = record {
  id = text "j1";
  name = text "add";
  payload = text "two";
  timeout_ms = 5000;
  chain = [];
  meta = [];
  expires_ms = 0;
  attempt = 1;
}

abbrev new_job : NewJob
new_job = record {
  id = text "j1";
  queue = queue_name;
  name = text "add";
  payload = text "two";
  timeout_ms = 5000;
  meta = [];
  expires_ms = 0;
  chain = [];
}

abbrev waiting_message : Message ℕ
waiting_message = record {
  headers = some (encode carried_job 7 []);
  body = carried_job.payload;
  acker = 4;
}

-- A server where every call succeeds, and a message is there after an odd number of calls.
abbrev obliging : Oracle ℕ
obliging = record {
  fails = λ log. false;
  waiting = λ log. 0;
  found = λ log. if length log % 2 == 1 then some waiting_message else none;
}

-- A server whose second call fails.
abbrev failing : Oracle ℕ
failing = record { fails = λ log. length log == 1; waiting = λ log. 0; found = λ log. none }

abbrev as_is : Text → Text
as_is s = s

abbrev start : (o : Oracle ℕ) → AmqpBroker (logging o)
start o = record { server = []; queues = queue_name ∷ low_name ∷ []; declared = [] }

retry-publishes_first_example :
    let (answer, after) =
      retry {client = logging failing} 10 (amqp queue_name 4 carried_job) 0 (start failing) in
    ((answer ≡ err) × (acks after.server ≡ []))
    ⊎ ((fine : Bool) × (before : Log ℕ) × (after.server
          ≡ (acked 4, fine)
            ∷ (
              published
                  (stream_key queue_name)
                  carried_job.payload
                  (encode (again carried_job) 10 []),
              true,
            )
            ∷ before)
        × (acks before ≡ [])
        × (is_err answer ≡ not fine))
unfolding acks
retry-publishes_first_example =
    retry-publishes_first failing 10 queue_name 4 carried_job 0 (start failing)

dead_letter-publishes_first_example :
    Careful obliging 4
      (published
        (dead_key queue_name)
        carried_job.payload
        (encode carried_job 10 (bury_headers (text "ValueError") [] 9)))
      (start obliging)
      (dead_letter {client = logging obliging} 9 10
        (amqp queue_name 4 carried_job)
        (text "ValueError")
        []
        0
        (start obliging))
dead_letter-publishes_first_example =
    dead_letter-publishes_first obliging 9 10 queue_name 4 carried_job (text "ValueError") [] 0
      (start obliging)

-- The first queue has nothing, the second has the message.
claim_pass-priority_example :
    IsFirst obliging as_is
      (queue_name ∷ low_name ∷ [])
      (received_message as_is low_name waiting_message)
      []
      (claim_pass {client = logging obliging} as_is
        (queue_name ∷ low_name ∷ [])
        (start obliging)).1.server
unfolding claim_pass
claim_pass-priority_example =
    claim_pass-priority obliging as_is (queue_name ∷ low_name ∷ [])
      (received_message as_is low_name waiting_message) (start obliging) refl

-- The dead queue is declared, one message is there, and then none.
dead_drain-settles_example :
    let log =
      (dead_drain {client = logging obliging} as_is
        (λ n. n)
        queue_name
        []
        true
        (start obliging)).1.server in
    (seen : List (Seen ℕ)) × ((peek {client = logging obliging} as_is
        (dead_key queue_name)
        10000
        (start obliging)).0
      ≡ ok seen)
    × (1 ≡ length (wanted [] seen))
    × (moves log ≡ onto went_back (others [] seen) (drained (λ n. n) queue_name [] true seen []))
unfolding moves dead_drain lookup insert remove
dead_drain-settles_example =
    dead_drain-settles obliging as_is (λ n. n) queue_name [] true 1 (start obliging) refl

-- A job is pushed after a delay, and a delivery fails for the last time.
publishes_declared_example :
    is_safe
      (dead_letter {client = logging obliging} 9 10
        (amqp queue_name 4 carried_job)
        (text "ValueError")
        []
        0
        (push {client = logging obliging} 5 new_job 3000000
          (connect {client = logging obliging} (queue_name ∷ low_name ∷ []) []).1).1).1.server
    ≡ true
unfolding connect
publishes_declared_example =
    publishes_declared obliging (queue_name ∷ low_name ∷ [])
      (dead_letter {client = logging obliging} 9 10 (amqp queue_name 4 carried_job)
        (text "ValueError") [] 0
        (push {client = logging obliging} 5 new_job 3000000
          (connect {client = logging obliging} (queue_name ∷ low_name ∷ []) []).1).1).1
      refl
      (further
        (further stay (
          pushes (connect {client = logging obliging} (queue_name ∷ low_name ∷ []) []).1 5 new_job
            3000000))
        (buries
          (push {client = logging obliging} 5 new_job 3000000
            (connect {client = logging obliging} (queue_name ∷ low_name ∷ []) []).1).1
          9 10 (amqp queue_name 4 carried_job) (text "ValueError") [] 0))

-- Two dead letters are held already.
abbrev counted_broker : AmqpBroker counting_server
counted_broker = record {
  server = (dead_key queue_name, 2) ∷ [];
  queues = queue_name ∷ [];
  declared = (dead_key queue_name, tt) ∷ [];
}

dead_letter-caps_example :
    let (answer, end) =
      dead_letter {client = counting_server} 9 10
        (amqp queue_name tt carried_job)
        (text "ValueError")
        []
        2
        counted_broker in
    (answer ≡ ok tt) × (lookup (dead_key queue_name) end.server ≡ some 2)
unfolding lookup
dead_letter-caps_example =
    dead_letter-caps counting_server-CountsMessages 9 10 queue_name tt carried_job
      (text "ValueError") [] 2 counted_broker (λ _ missing. absurd (ground (arith, missing)))

push-arrives_example :
    ((push {client = counting_server} 5 new_job 3000000 counted_broker).0 ≡ ok tt)
    × (lookup
          (delay_key queue_name 3)
          (push {client = counting_server} 5 new_job 3000000 counted_broker).1.server
        ≡ some 1)
unfolding lookup
push-arrives_example =
    push-arrives counting_server-CountsMessages 5 new_job 3000000 counted_broker
      (λ known. absurd (ground (arith, known)))
