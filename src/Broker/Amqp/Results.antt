-- ===== src/Broker/Amqp/Results.antt =====
-- AmqpBroker (broker.rs): results, and what the queues hold.
use tarsk.Base.{
  Bool, List, Option, Text, [], if◌then◌else◌, is_err, max, none, ok, some, text, text_eq, ℕ, ◌∷◌,
}
use tarsk.Broker.{Depth, as_i64, as_millis, result_key, stream_key}
use tarsk.Base.Dict.{insert}
use tarsk.Base.Int.{pos}
use tarsk.Broker.Amqp.{FieldTable, long_long_int, long_string}
use tarsk.Broker.Running.{done, when_found, ◌>>=◌, ◌>>◌}
use tarsk.Broker.Amqp.Client.{AmqpClient, Run, ask, declare_plain}
use tarsk.Broker.Amqp.Dead.{dead_key}

abbrev pub result_arguments : (ttl : ℕ) → FieldTable
result_arguments ttl =
    let ttl_ms = as_i64 (max (as_millis ttl) 1) in
    insert (text "x-overflow") (long_string (text "drop-head")) (
      insert (text "x-max-length") (long_long_int (pos 1)) (
        insert (text "x-message-ttl") (long_long_int ttl_ms)
          (insert (text "x-expires") (long_long_int ttl_ms) [])))

module _ {client : AmqpClient} where
  unfoldable pub store_result : (id blob : Text) → (ttl : ℕ) → Run client (Unit {0})
  store_result id blob ttl = do
    _ ← ask (client.declare (result_key id) (result_arguments ttl))
    ask (client.publish_plain (result_key id) blob)

  -- Is there no such queue? A passive declare that fails says so.
  unfoldable pub is_missing : (name : Text) → Run client Bool
  is_missing name b =
      let (answer, server) = client.declare_passive name b.server in
      (ok (is_err answer), record b { server = server })

  abbrev pub found_result : (id : Text) → Run client (Option Text)
  found_result id = do
    found ← ask (client.get (result_key id))
    when_found found (done none) λ m. do ask (client.nack_requeue m.acker); done (some m.body)

  -- The message goes back, for whoever reads the result next.
  unfoldable pub get_result : (id : Text) → Run client (Option Text)
  unfolding is_missing
  get_result id = do
    missing ← is_missing (result_key id)
    if missing then done none else found_result id

  unfoldable pub depth : (wanted : List Text) → Run client (List Depth)
  unfolding declare_plain
  depth [] = done []
  depth (queue ∷ wanted) = do
    ready ← declare_plain (stream_key queue)
    dead ← declare_plain (dead_key queue)
    rows ← depth wanted
    done (record { queue = queue; ready = ready; in_flight = 0; delayed = 0; dead = dead } ∷ rows)
