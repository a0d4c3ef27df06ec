-- ===== src/Broker/Amqp/Safe/Asks.antt =====
-- One call of the server keeps the broker sound.
use tarsk.Base.{
  Bool, List, Res, Text, arith, err, false, if◌then◌else◌, ok, text_eq, true, ◌∷◌, ◌≡◌,
}
use tarsk.Broker.{stream_key}
use tarsk.Broker.Amqp.{FieldTable}
use tarsk.Broker.Amqp.Client.{AmqpBroker, ask}
use tarsk.Broker.Amqp.Log.{
  AmqpCall, Log, Oracle, acked, declared_queue, fetched, is_safe, logging, published, put_back,
  reply, was_declared,
}
use tarsk.Broker.Amqp.Safe.{Always, Ensures, IsSound, Post}

module _ {Acker : Type 0} (o : Oracle Acker) where
  -- Nothing but the log changes, by a call that is no publish.
  pub quiet :
      (opened : List Text) (b : AmqpBroker (logging o)) (log : Log Acker)
      → is_safe log ≡ true
      → ((name : Text) → was_declared name b.server ≡ true → was_declared name log ≡ true)
      → IsSound o opened b
      → IsSound o opened (record b { server = log })
  quiet opened b log safe more sound = record {
    safe = safe;
    known = λ name h. more name (sound.known name h);
    ready = λ queue h. more (stream_key queue) (sound.ready queue h);
  }

  -- One call, failed or not.
  pub ask-reply {ℓ} :
      {A : Type ℓ} (opened : List Text) (event : AmqpCall Acker) (f : Log Acker → A)
      (Q : A → AmqpBroker (logging o) → Type 0) (b : AmqpBroker (logging o))
      → IsSound o opened b
      → ((fine : Bool) → is_safe ((event, fine) ∷ b.server) ≡ true)
      → ((fine : Bool) (name : Text)
          → was_declared name b.server ≡ true
          → was_declared name ((event, fine) ∷ b.server) ≡ true)
      → Q (f b.server) (record b { server = (event, true) ∷ b.server })
      → let r = ask {client = logging o} (reply o event f) b in IsSound o opened r.1 × Post o Q r
  ask-reply {A = A} opened event f Q b sound safe more q =
      elim (o.fails b.server)
        as (λ fails.
          let made : Res A × Log Acker =
            if fails
            then (err, (event, false) ∷ b.server)
            else (ok (f b.server), (event, true) ∷ b.server) in
          let r : Res A × AmqpBroker (logging o) = (made.0, record b { server = made.1 }) in
          IsSound o opened r.1 × Post o Q r) [
            | true ↦
                (quiet opened b ((event, false) ∷ b.server) (safe false) (more false) sound, tt)
            | false ↦ (quiet opened b ((event, true) ∷ b.server) (safe true) (more true) sound, q)
          ]

  pub ask-declare :
      (opened : List Text) (name : Text) (arguments : FieldTable)
      → Ensures o opened
          (λ b. Unit)
          (ask {client = logging o} ((logging o).declare name arguments))
          (λ n b. was_declared name b.server ≡ true)
  unfolding was_declared is_safe
  ask-declare opened name arguments b sound _ =
      ask-reply opened (declared_queue name) o.waiting (λ n b. was_declared name b.server ≡ true) b
        sound (λ fine. sound.safe) (λ fine n h. ground (arith, h))
        (ground (arith, text_eq.beq_iff name name))

  pub ask-publish :
      (opened : List Text) (target body : Text) (headers : FieldTable)
      → Ensures o opened
          (λ b. was_declared target b.server ≡ true)
          (ask {client = logging o} ((logging o).publish target body headers))
          (Always o)
  unfolding was_declared is_safe
  ask-publish opened target body headers b sound there =
      ask-reply opened (published target body headers) (λ _. tt) (Always o) b sound
        (λ fine. ground (arith, there, sound.safe)) (λ fine n h. h) tt

  pub ask-get :
      (opened : List Text) (name : Text)
      → Ensures o opened (λ b. Unit) (ask {client = logging o} ((logging o).get name)) (Always o)
  unfolding was_declared is_safe
  ask-get opened name b sound _ =
      ask-reply opened (fetched name) o.found (Always o) b sound (λ fine. sound.safe)
        (λ fine n h. h) tt

  pub ask-ack :
      (opened : List Text) (acker : Acker)
      → Ensures o opened (λ b. Unit) (ask {client = logging o} ((logging o).ack acker)) (Always o)
  unfolding was_declared is_safe
  ask-ack opened acker b sound _ =
      ask-reply opened (acked acker) (λ _. tt) (Always o) b sound (λ fine. sound.safe)
        (λ fine n h. h) tt

  pub ask-nack :
      (opened : List Text) (acker : Acker)
      → Ensures o opened
          (λ b. Unit)
          (ask {client = logging o} ((logging o).nack_requeue acker))
          (Always o)
  unfolding was_declared is_safe
  ask-nack opened acker b sound _ =
      ask-reply opened (put_back acker) (λ _. tt) (Always o) b sound (λ fine. sound.safe)
        (λ fine n h. h) tt
