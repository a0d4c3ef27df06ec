-- ===== src/Broker/Amqp/Safe/Calls.antt =====
-- The parts of the operations keep the broker sound: declaring, publishing, looking at a queue.
use tarsk.Base.{
  Bool-cases, List, Text, [], arith, inl, inr, nat_eq, suc, text_eq, true, zero, ℕ, ◌==◌, ◌∷◌, ◌≡◌,
}
use tarsk.Broker.{AmqpRecord, as_millis, stream_key, u64}
use tarsk.Base.Dict.{contains_key, lookup-insert, set_insert}
use tarsk.Broker.Amqp.{encode}
use tarsk.Broker.Amqp.Client.{AmqpBroker, ask, declare_once, declare_plain}
use tarsk.Broker.Amqp.Dead.{Seen, get_some, peek, requeue_all}
use tarsk.Broker.Amqp.Driver.{delay_arguments, delay_key, delay_queue, publish_record, target_for}
use tarsk.Broker.Amqp.Log.{Oracle, logging, was_declared}
use tarsk.Broker.Amqp.Safe.{Always, Ensures, Ensures->>=, Ensures-when_found, IsSound}
use tarsk.Broker.Amqp.Safe.Asks.{ask-declare, ask-get, ask-nack, ask-publish}

module _ {Acker : Type 0} (o : Oracle Acker) where
  mark :
      (opened : List Text) (name : Text) (b : AmqpBroker (logging o))
      → IsSound o opened b
      → was_declared name b.server ≡ true
      → IsSound o opened (record b { declared = (set_insert name b.declared).0 })
  mark opened name b sound there = record {
    safe = sound.safe;
    known = λ n h. ground (
      arith,
      h,
      there,
      sound.known n,
      lookup-insert name n tt b.declared,
      text_eq.beq_iff name n,
    );
    ready = sound.ready;
  }

  pub declare_plain-Ensures :
      (opened : List Text) (name : Text)
      → Ensures o opened
          (λ b. Unit)
          (declare_plain {client = logging o} name)
          (λ n b. was_declared name b.server ≡ true)
  unfolding declare_plain
  declare_plain-Ensures opened name =
      Ensures->>= o (λ n b. was_declared name b.server ≡ true)
        (λ n b. was_declared name b.server ≡ true)
        (ask {client = logging o} ((logging o).declare name [])) _ (ask-declare o opened name [])
        (λ n b sound there. (mark opened name b sound there, there))

  pub declare_once-Ensures :
      (opened : List Text) (name : Text)
      → Ensures o opened
          (λ b. Unit)
          (declare_once {client = logging o} name)
          (λ n b. was_declared name b.server ≡ true)
  unfolding declare_once
  declare_once-Ensures opened name b sound _ = elim (Bool-cases (contains_key name b.declared)) [
    | inl known ↦ rw known (sound, sound.known name known)
    | inr unknown ↦ rw unknown (
        Ensures->>= o (λ n b. was_declared name b.server ≡ true)
          (λ n b. was_declared name b.server ≡ true) (declare_plain {client = logging o} name) _
          (declare_plain-Ensures opened name) (λ n b sound there. (sound, there)) b sound tt)
  ]

  pub target_for-Ensures :
      (opened : List Text) (queue : Text) (delay : ℕ)
      → Ensures o opened
          (λ b. was_declared (stream_key queue) b.server ≡ true)
          (target_for {client = logging o} queue delay)
          (λ target b. was_declared target b.server ≡ true)
  unfolding target_for delay_queue
  target_for-Ensures opened queue delay b sound there = elim (Bool-cases (delay == 0)) [
    | inl now ↦ rw now (sound, there)
    | inr later ↦ rw later (
        Ensures->>= o
          (λ n b. was_declared (delay_key queue (u64 (as_millis delay))) b.server ≡ true)
          (λ target b. was_declared target b.server ≡ true) _ _
          (ask-declare o opened (delay_key queue (u64 (as_millis delay)))
            (delay_arguments queue (u64 (as_millis delay))))
          (λ n b sound there. (sound, there)) b sound tt)
  ]

  pub publish_record-Ensures :
      (opened : List Text) (target : Text) (r : AmqpRecord) (ready_at_ms : ℕ)
      (extra : List (Text × Text))
      → Ensures o opened
          (λ b. was_declared target b.server ≡ true)
          (publish_record {client = logging o} target r ready_at_ms extra)
          (Always o)
  unfolding publish_record
  publish_record-Ensures opened target r ready_at_ms extra =
      ask-publish o opened target r.payload (encode r ready_at_ms extra)

  get_some-Ensures :
      (opened : List Text) (lossy : Text → Text) (name : Text) (limit : ℕ)
      → Ensures o opened (λ b. Unit) (get_some {client = logging o} lossy name limit) (Always o)
  unfolding get_some
  get_some-Ensures opened lossy name zero = λ b sound _. (sound, tt)
  get_some-Ensures opened lossy name (suc limit) =
      Ensures->>= o (Always o) (Always o) _ _ (ask-get o opened name) λ found.
        Ensures-when_found o (λ b. Unit) (Always o) found _ _ (λ b sound _. (sound, tt))
          λ m.
            Ensures->>= o (Always o) (Always o) _ _ (get_some-Ensures opened lossy name limit)
              (λ rest b sound _. (sound, tt))

  pub peek-Ensures :
      (opened : List Text) (lossy : Text → Text) (name : Text) (limit : ℕ)
      → Ensures o opened (λ b. Unit) (peek {client = logging o} lossy name limit) (Always o)
  unfolding peek
  peek-Ensures opened lossy name limit =
      Ensures->>= o (λ _ b. was_declared name b.server ≡ true) (Always o) _ _
        (declare_once-Ensures opened name)
        (λ _ b sound _. get_some-Ensures opened lossy name limit b sound tt)

  pub requeue_all-Ensures :
      (opened : List Text) (seen : List (Seen Acker))
      → Ensures o opened (λ b. Unit) (requeue_all {client = logging o} seen) (Always o)
  unfolding requeue_all
  requeue_all-Ensures opened [] = λ b sound _. (sound, tt)
  requeue_all-Ensures opened (s ∷ rest) =
      Ensures->>= o (Always o) (Always o) _ _ (ask-nack o opened s.acker)
        (λ _. requeue_all-Ensures opened rest)
