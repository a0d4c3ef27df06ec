-- ===== src/Broker/Amqp/Counting.antt =====
-- How many messages the queues of AmqpBroker (broker.rs) hold, on a server that answers every call.
pub mod Arriving
use Prim.Native.Nat.{differ}
use tarsk.Base.{
  Bool-cases, List, Option, Option-cases, Text, [], arith, false, if◌then◌else◌, inl, inr, leb, min,
  nat_eq, none, ok, refl, some, subst, suc, text_eq, true, zero, ℕ, ◌+◌, ◌==◌, ◌∙◌, ◌≡◌, ◌≢◌,
}
use tarsk.Broker.{AmqpRecord, as_millis, stream_key, u64}
use tarsk.Base.Dict.{contains_key, or_else}
use tarsk.Broker.Amqp.{FieldTable, encode}
use tarsk.Broker.Amqp.Client.{AmqpBroker, AmqpClient, Message, declare_once, declare_plain}
use tarsk.Broker.Amqp.Dead.{trim}
use tarsk.Broker.Amqp.Driver.{delay_arguments, delay_key, delay_queue, publish_record, target_for}
use tarsk.Broker.Amqp.Ordering.{retry_target}

abbrev pub one_more : Option ℕ → Option ℕ
one_more none = none
one_more (some n) = some (n + 1)

-- What the code relies on: `ready` gives the number of messages that a queue can hand out, none for
-- a queue that does not exist. A publish to such a queue is confirmed all the same, and dropped.
pub record CountsMessages (client : AmqpClient) (ready : Text → client.Server → Option ℕ)
    : Type 0 where
  pub declare-answers :
      (name : Text) (arguments : FieldTable) (s : client.Server)
      → (client.declare name arguments s).0 ≡ ok (or_else 0 (ready name s))
  pub declare-makes :
      (name q : Text) (arguments : FieldTable) (s : client.Server)
      → ready q (client.declare name arguments s).1
        ≡ (if name == q then some (or_else 0 (ready name s)) else ready q s)
  pub publish-answers :
      (target body : Text) (headers : FieldTable) (s : client.Server)
      → (client.publish target body headers s).0 ≡ ok tt
  pub publish-adds :
      (target body q : Text) (headers : FieldTable) (s : client.Server)
      → ready q (client.publish target body headers s).1
        ≡ (if target == q then one_more (ready target s) else ready q s)
  pub get-answers :
      (name : Text) (n : ℕ) (s : client.Server)
      → ready name s ≡ some (suc n)
      → (m : Message client.Acker) × ((client.get name s).0 ≡ ok (some m))
  pub get-takes :
      (name : Text) (n : ℕ) (s : client.Server)
      → ready name s ≡ some (suc n)
      → ready name (client.get name s).1 ≡ some n
  pub ack-answers : (acker : client.Acker) (s : client.Server) → (client.ack acker s).0 ≡ ok tt
  pub ack-keeps :
      (acker : client.Acker) (q : Text) (s : client.Server)
      → ready q (client.ack acker s).1 ≡ ready q s

module _ {client : AmqpClient} {ready : Text → client.Server → Option ℕ}
    (laws : CountsMessages client ready) where
  trim-further :
      (dead : Text) (keep count : ℕ) (b : AmqpBroker client) (m : Message client.Acker)
      → leb (suc count) keep ≡ false
      → (client.get dead b.server).0 ≡ ok (some m)
      → trim dead keep (suc count) b
        ≡ trim dead keep count
            (record b { server = (client.ack m.acker (client.get dead b.server).1).1 })
  unfolding trim
  trim-further dead keep count b m many found =
      rw (many, found, laws.ack-answers m.acker (client.get dead b.server).1) refl

  -- The loop stops, and leaves as many messages as may stay.
  pub trim-leaves :
      (dead : Text) (keep count : ℕ) (b : AmqpBroker client)
      → ready dead b.server ≡ some count
      → ((trim dead keep count b).0 ≡ ok tt)
        × (ready dead (trim dead keep count b).1.server ≡ some (min count keep))
  unfolding trim
  trim-leaves dead keep zero b holds = (refl, ground (arith, holds))
  trim-leaves dead keep (suc count) b holds = elim (Bool-cases (leb (suc count) keep)) [
    | inl few ↦ rw few (refl, ground (arith, holds, few))
    | inr many ↦
        let (m, found) = laws.get-answers dead count b.server holds in
        let rest = (client.get dead b.server).1 in
        let (ends, leaves) =
          trim-leaves dead keep count (record b { server = (client.ack m.acker rest).1 })
            (laws.ack-keeps m.acker dead rest ∙ laws.get-takes dead count b.server holds) in
        rw (trim-further dead keep count b m many found) (ends, ground (arith, leaves, many))
  ]

  pub declare_once-makes :
      (name q : Text) (b : AmqpBroker client)
      → (contains_key name b.declared ≡ true → ready name b.server ≢ none)
      → ((declare_once name b).0 ≡ ok tt)
        × (ready q (declare_once name b).1.server
            ≡ (if name == q then some (or_else 0 (ready name b.server)) else ready q b.server))
  unfolding declare_once declare_plain
  declare_once-makes name q b exists = elim (Bool-cases (contains_key name b.declared)) [
    | inl known ↦ rw known (
      refl,
      elim (Option-cases (ready name b.server)) [
        | inl missing ↦ absurd (exists known missing)
        | inr (n, there) ↦ elim (Bool-cases (name == q)) [
          | inl same ↦ rw same (
              subst (λ q. ready q b.server ≡ some (or_else 0 (ready name b.server)))
                ((text_eq.beq_iff name q).0 same) (ground (arith, there)))
          | inr differ ↦ rw differ refl
        ]
      ],
    )
    | inr unknown ↦
        rw (unknown, laws.declare-answers name [] b.server)
          (refl, laws.declare-makes name q [] b.server)
  ]

  -- A published message is one more in its queue, which exists.
  pub publish_record-adds :
      (target : Text) (r : AmqpRecord) (ready_at_ms : ℕ) (extra : List (Text × Text)) (n : ℕ)
      (b : AmqpBroker client)
      → ready target b.server ≡ some n
      → ((publish_record target r ready_at_ms extra b).0 ≡ ok tt)
        × (ready target (publish_record target r ready_at_ms extra b).1.server ≡ some (n + 1))
  unfolding publish_record
  publish_record-adds target r ready_at_ms extra n b holds = (
    laws.publish-answers target r.payload (encode r ready_at_ms extra) b.server,
    laws.publish-adds target r.payload target (encode r ready_at_ms extra) b.server
        ∙ ground (arith, holds, text_eq.beq_iff target target),
  )

  pub target_for-makes :
      (queue : Text) (delay : ℕ) (n : ℕ) (b : AmqpBroker client)
      → ready (stream_key queue) b.server ≡ some n
      → let target = retry_target queue delay in
        ((target_for queue delay b).0 ≡ ok target)
        × (ready target (target_for queue delay b).1.server
            ≡ some (or_else 0 (ready target b.server)))
  unfolding target_for delay_queue
  target_for-makes queue delay n b holds = elim (Bool-cases (delay == 0)) [
    | inl soon ↦ rw (soon, holds) (refl, refl)
    | inr later ↦
        let key = delay_key queue (u64 (as_millis delay)) in
        let arguments = delay_arguments queue (u64 (as_millis delay)) in
        rw (later, laws.declare-answers key arguments b.server)
          (
            refl,
            laws.declare-makes key key arguments b.server ∙ ground (arith, text_eq.beq_iff key key),
          )
  ]
