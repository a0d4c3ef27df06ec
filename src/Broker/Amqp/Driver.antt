-- ===== src/Broker/Amqp/Driver.antt =====
-- AmqpBroker (broker.rs): connecting, publishing, claiming and retrying. `now` is a reading of
-- `now_ms()`; a delay is in nanoseconds. `lossy` is `String::from_utf8_lossy`.
use tarsk.Base.{
  List, Option, Res, Text, [], if◌then◌else◌, nat_eq, none, some, suc, text, text_eq, zero, ℕ, ◌++◌,
  ◌+◌, ◌==◌, ◌∷◌,
}
use tarsk.Broker.{
  AmqpRecord, Delivery, NewJob, Receipt, amqp, as_i64, as_millis, stream_key, u32, u64,
}
use tarsk.Base.Decimal.{decimal}
use tarsk.Base.Dict.{insert, or_else}
use tarsk.Broker.Amqp.{FieldTable, delivery, encode, first_record, long_long_int, long_string}
use tarsk.Broker.Running.{done, fail, when_found, ◌>>=◌, ◌>>◌}
use tarsk.Broker.Amqp.Client.{
  AmqpBroker, AmqpClient, Message, Run, ask, declare_once, declare_plain,
}

abbrev pub delay_key : (queue : Text) → (ms : ℕ) → Text
delay_key queue ms = stream_key queue ++ text ":delay:" ++ decimal ms

abbrev pub delay_arguments : (queue : Text) → (ms : ℕ) → FieldTable
delay_arguments queue ms = insert (text "x-expires") (long_long_int (as_i64 (ms + 60000))) (
    insert (text "x-dead-letter-routing-key") (long_string (stream_key queue)) (
      insert (text "x-dead-letter-exchange") (long_string [])
        (insert (text "x-message-ttl") (long_long_int (as_i64 ms)) [])))

abbrev pub ready_at : (now delay : ℕ) → ℕ
ready_at now delay = u64 (now + u64 (as_millis delay))

abbrev pub received_message :
    {Acker : Type 0} → (lossy : Text → Text) → (queue : Text) → Message Acker → Delivery Acker
received_message lossy queue m = delivery lossy queue m.acker (or_else [] m.headers) m.body

module _ {client : AmqpClient} where
  unfoldable pub declare_all : List Text → Run client (Unit {0})
  unfolding declare_plain
  declare_all [] = done tt
  declare_all (queue ∷ queues) = do _ ← declare_plain (stream_key queue); declare_all queues

  -- `connect`, from the moment that the channel stands.
  unfoldable pub connect : (queues : List Text) → client.Server → Res (Unit {0}) × AmqpBroker client
  unfolding declare_all
  connect queues server =
      declare_all queues record { server = server; queues = queues; declared = [] }

  unfoldable pub delay_queue : (queue : Text) → (ms : ℕ) → Run client Text
  delay_queue queue ms = do
    _ ← ask (client.declare (delay_key queue ms) (delay_arguments queue ms))
    done (delay_key queue ms)

  unfoldable pub publish_record :
      (target : Text)
      → AmqpRecord
      → (ready_at_ms : ℕ) → (extra : List (Text × Text)) → Run client (Unit {0})
  unfolding encode
  publish_record target r ready_at_ms extra =
      ask (client.publish target r.payload (encode r ready_at_ms extra))

  -- Where a job goes that is due after a delay.
  unfoldable pub target_for : (queue : Text) → (delay : ℕ) → Run client Text
  unfolding delay_queue
  target_for queue delay =
      if delay == 0 then done (stream_key queue) else delay_queue queue (u64 (as_millis delay))

  unfoldable pub push : (now : ℕ) → NewJob → (delay : ℕ) → Run client (Unit {0})
  unfolding declare_once target_for publish_record
  push now job delay = do
    declare_once (stream_key job.queue)
    target ← target_for job.queue delay
    publish_record target (first_record job) (ready_at now delay) []

  -- One pass over the queues, in the order of their priority.
  unfoldable pub claim_pass :
      (lossy : Text → Text) → List Text → Run client (Option (Delivery client.Acker))
  unfolding delivery
  claim_pass lossy [] = done none
  claim_pass lossy (queue ∷ queues) = do
    fetched ← ask (client.get (stream_key queue))
    when_found fetched (claim_pass lossy queues) λ m. done (some (received_message lossy queue m))

  -- `waits` counts the passes that found nothing and ended before the deadline.
  unfoldable pub claim :
      (lossy : Text → Text) → (waits : ℕ) → Run client (Option (Delivery client.Acker))
  unfolding claim_pass
  claim lossy zero b = claim_pass lossy b.queues b
  claim lossy (suc waits) b =
      (claim_pass lossy b.queues >>= λ fetched.
      when_found fetched (claim lossy waits) λ d. done (some d))
        b

  unfoldable pub retry : (now : ℕ) → Receipt client.Acker → (delay : ℕ) → Run client (Unit {0})
  unfolding target_for publish_record
  retry now (amqp queue acker r) delay = do
    target ← target_for queue delay
    publish_record target (record r { attempt = u32 (r.attempt + 1) }) (ready_at now delay) []
    ask (client.ack acker)
  retry now _ delay = fail
