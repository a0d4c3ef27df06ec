-- ===== src/Broker/Amqp/Client.antt =====
-- What AmqpBroker (broker.rs) asks of its server through `lapin`, which is an interface here, and
-- the state that the broker keeps. A call that fails ends the operation, as `?` does.
use tarsk.Base.{List, Option, Res, Text, [], if◌then◌else◌, ok, text_eq, ℕ}
use tarsk.Base.Dict.{Dict, contains_key, set_insert}
use tarsk.Broker.Amqp.{FieldTable}
use tarsk.Broker.Running.{Operation, done, ◌>>=◌, ◌>>◌}

-- A message of `basic_get`; the acker names its delivery.
pub record Message (Acker : Type 0) : Type 0 where
  pub headers : Option FieldTable
  pub body : Text
  pub acker : Acker

-- The calls of `lapin` that the code makes, over an unknown state of the connection and its server.
-- `declare` stands for a durable `queue_declare` and gives the number of ready messages,
-- `declare_passive` for the passive one on a channel of its own, `publish` for a `basic_publish` to
-- the default exchange and its confirm, `nack_requeue` for a nack that requeues.
pub record AmqpClient : Type 1 where
  pub Server : Type 0
  pub Acker : Type 0
  pub declare : (name : Text) → (arguments : FieldTable) → Server → Res ℕ × Server
  pub declare_passive : (name : Text) → Server → Res (Unit {0}) × Server
  pub publish : (target body : Text) → FieldTable → Server → Res (Unit {0}) × Server
  pub publish_plain : (target body : Text) → Server → Res (Unit {0}) × Server
  pub get : (name : Text) → Server → Res (Option (Message Acker)) × Server
  pub ack : Acker → Server → Res (Unit {0}) × Server
  pub nack_requeue : Acker → Server → Res (Unit {0}) × Server

-- `declared` holds the queues that are known to exist and cannot expire.
pub record AmqpBroker (client : AmqpClient) : Type 0 where
  pub server : client.Server
  pub queues : List Text
  pub declared : Dict Text (Unit {0})

-- An operation of the broker.
abbrev pub Run {ℓ} : AmqpClient → Type ℓ → Type ℓ
Run client A = Operation (AmqpBroker client) A

module _ {client : AmqpClient} where
  -- A call of the server.
  abbrev pub ask {ℓ} : {A : Type ℓ} → (client.Server → Res A × client.Server) → Run client A
  ask call b = let (answer, server) = call b.server in (answer, record b { server = server })

  abbrev mark_declared : Text → Run client (Unit {0})
  mark_declared name b = (ok tt, record b { declared = (set_insert name b.declared).0 })

  unfoldable pub declare_plain : (name : Text) → Run client ℕ
  declare_plain name = do count ← ask (client.declare name []); mark_declared name; done count

  -- A queue is declared where this broker has not done it yet.
  unfoldable pub declare_once : (name : Text) → Run client (Unit {0})
  unfolding declare_plain
  declare_once name b =
      if contains_key name b.declared then (ok tt, b) else (declare_plain name >>= λ _. done tt) b
