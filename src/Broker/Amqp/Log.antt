-- ===== src/Broker/Amqp/Log.antt =====
-- The calls that AmqpBroker makes of its server. The server here is any server: the calls are written
-- down with their outcome, and an oracle decides, from what was asked before, which calls fail.
use tarsk.Base.{
  Bool, List, Option, Res, Text, [], err, false, if◌then◌else◌, ok, text_eq, true, ℕ, ◌&&◌, ◌==◌,
  ◌||◌, ◌∷◌,
}
use tarsk.Broker.Amqp.{FieldTable}
use tarsk.Broker.Amqp.Client.{AmqpClient, Message}

pub data AmqpCall (Acker : Type 0) : Type 0 where
  declared_queue : (name : Text) → AmqpCall Acker
  published : (target body : Text) → (headers : FieldTable) → AmqpCall Acker
  fetched : (name : Text) → AmqpCall Acker
  probed : (name : Text) → AmqpCall Acker
  acked : Acker → AmqpCall Acker
  put_back : Acker → AmqpCall Acker

-- The newest call first, each with whether it succeeded.
abbrev pub Log : Type 0 → Type 0
Log Acker = List (AmqpCall Acker × Bool)

pub record Oracle (Acker : Type 0) : Type 0 where
  pub fails : Log Acker → Bool
  pub waiting : Log Acker → ℕ
  pub found : Log Acker → Option (Message Acker)

abbrev pub reply {ℓ} :
    {A : Type ℓ} {Acker : Type 0}
    → Oracle Acker
    → AmqpCall Acker
    → (Log Acker → A)
    → Log Acker
    → Res A × Log Acker
reply o event f log =
    if o.fails log then (err, (event, false) ∷ log) else (ok (f log), (event, true) ∷ log)

abbrev pub logging : {Acker : Type 0} → Oracle Acker → AmqpClient
logging {Acker} o = record {
  Server = Log Acker;
  Acker = Acker;
  declare = λ name arguments. reply o (declared_queue name) o.waiting;
  declare_passive = λ name. reply o (probed name) (λ _. tt);
  publish = λ target body headers. reply o (published target body headers) (λ _. tt);
  publish_plain = λ target body. reply o (published target body []) (λ _. tt);
  get = λ name. reply o (fetched name) o.found;
  ack = λ acker. reply o (acked acker) (λ _. tt);
  nack_requeue = λ acker. reply o (put_back acker) (λ _. tt);
}

-- Has the queue been declared, with success?
unfoldable pub was_declared : {Acker : Type 0} → (name : Text) → Log Acker → Bool
was_declared name [] = false
was_declared name ((declared_queue q, fine) ∷ log) = fine && q == name || was_declared name log
was_declared name ((_, fine) ∷ log) = was_declared name log

-- Every publish goes to a queue that was declared before.
unfoldable pub is_safe : {Acker : Type 0} → Log Acker → Bool
unfolding was_declared
is_safe [] = true
is_safe ((published target body headers, fine) ∷ log) = was_declared target log && is_safe log
is_safe ((_, fine) ∷ log) = is_safe log
