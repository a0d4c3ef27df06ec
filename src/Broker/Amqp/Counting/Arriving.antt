-- ===== src/Broker/Amqp/Counting/Arriving.antt =====
-- What is pushed arrives, and the dead letters stay within their cap.
use tarsk.Base.{
  Bool-cases, Option, Res, Text, [], ap, arith, err, if◌then◌else◌, inl, inr, min, nat_eq, none, ok,
  refl, some, subst, text_eq, true, ℕ, ◌+◌, ◌==◌, ◌∙◌, ◌≡◌, ◌≢◌,
}
use tarsk.Broker.{AmqpRecord, NewJob, amqp, stream_key}
use tarsk.Base.Dict.{contains_key, or_else, set_insert}
use tarsk.Broker.Amqp.{first_record}
use tarsk.Broker.Running.{after}
use tarsk.Broker.Amqp.Client.{AmqpBroker, AmqpClient, Run, ask, declare_once, declare_plain}
use tarsk.Broker.Amqp.Counting.{
  CountsMessages, declare_once-makes, publish_record-adds, target_for-makes, trim-leaves,
}
use tarsk.Broker.Amqp.Dead.{bury_headers, dead_key, dead_letter, enforce_cap}
use tarsk.Broker.Amqp.Driver.{publish_record, push, ready_at, target_for}
use tarsk.Broker.Amqp.Ordering.{retry_target}

module _ {client : AmqpClient} {ready : Text → client.Server → Option ℕ}
    (laws : CountsMessages client ready) where
  -- The queues that the broker takes for declared exist.
  abbrev pub Exists : Text → AmqpBroker client → Type 0
  Exists name b = contains_key name b.declared ≡ true → ready name b.server ≢ none

  after-ok {ℓ κ} :
      {A : Type ℓ} {B : Type κ} (r : Res A × AmqpBroker client) (f : A → Run client B) (a : A)
      → r.0 ≡ ok a
      → after r f ≡ f a r.1
  after-ok (ok x, b) f a h = ap (λ x. f x b) (ground (arith, h))
  after-ok (err, b) f a h = absurd (ground (arith, h))

  made :
      (name : Text) (b : AmqpBroker client)
      → Exists name b
      → ready name (declare_once name b).1.server ≡ some (or_else 0 (ready name b.server))
  made name b exists =
      (declare_once-makes laws name name b exists).1 ∙ ground (arith, text_eq.beq_iff name name)

  kept :
      (name q : Text) (b : AmqpBroker client)
      → Exists name b
      → or_else 0 (ready q (declare_once name b).1.server) ≡ or_else 0 (ready q b.server)
  kept name q b exists = elim (Bool-cases (name == q)) [
    | inl same ↦
        subst
          (λ q. or_else 0 (ready q (declare_once name b).1.server) ≡ or_else 0 (ready q b.server))
          ((text_eq.beq_iff name q).0 same) (ap (or_else 0) (made name b exists))
    | inr apart ↦ ground (arith, (declare_once-makes laws name q b exists).1, apart)
  ]

  -- On a server that answers every call, a push succeeds, and leaves one more message in the queue
  -- that is due for it, be it declared before or not. The main queue exists, where the broker takes
  -- it for declared.
  pub push-arrives :
      (now : ℕ) (job : NewJob) (delay : ℕ) (b : AmqpBroker client)
      → Exists (stream_key job.queue) b
      → let target = retry_target job.queue delay in
        ((push now job delay b).0 ≡ ok tt)
        × (ready target (push now job delay b).1.server
            ≡ some (or_else 0 (ready target b.server) + 1))
  unfolding push
  push-arrives now job delay b exists =
      let main = stream_key job.queue in
      let target = retry_target job.queue delay in
      let b1 = (declare_once main b).1 in
      let b2 = (target_for job.queue delay b1).1 in
      let (told, there) =
        target_for-makes laws job.queue delay (or_else 0 (ready main b.server)) b1
          (made main b exists) in
      let (ends, adds) =
        publish_record-adds laws target (first_record job) (ready_at now delay) []
          (or_else 0 (ready target b1.server)) b2 there in
      let path : push now job delay b
          ≡ publish_record target (first_record job) (ready_at now delay) [] b2 =
        after-ok (declare_once main b) _ tt (declare_once-makes laws main main b exists).0
        ∙ after-ok (target_for job.queue delay b1) _ target told in
      rw path (ends, adds ∙ ap (λ n. some (n + 1)) (kept main target b exists))

  capped :
      (dead : Text) (keep n : ℕ) (b : AmqpBroker client)
      → ready dead b.server ≡ some n
      → ((enforce_cap dead keep b).0 ≡ ok tt)
        × (ready dead (enforce_cap dead keep b).1.server
            ≡ some (if keep == 0 then n else min n keep))
  unfolding declare_plain
  capped dead keep n b holds = elim (Bool-cases (keep == 0)) [
    | inl whole ↦ rw whole (refl, holds)
    | inr some_stay ↦
        let again : ready dead (client.declare dead [] b.server).1 ≡ some n =
          laws.declare-makes dead dead [] b.server
          ∙ ground (arith, holds, text_eq.beq_iff dead dead) in
        rw (some_stay, laws.declare-answers dead [] b.server, holds)
          (trim-leaves laws dead keep n
            (record b {
              server = (client.declare dead [] b.server).1;
              declared = (set_insert dead b.declared).0;
            })
            again)
  ]

  -- On a server that answers every call, a dead letter succeeds, and leaves one more message in the
  -- dead queue, or as many as `keep` says where that is fewer; a `keep` of zero is no cap. The
  -- trimming ends. The dead queue exists, where the broker takes it for declared.
  pub dead_letter-caps :
      (died now : ℕ) (queue : Text) (acker : client.Acker) (r : AmqpRecord) (error traceback : Text)
      (keep : ℕ) (b : AmqpBroker client)
      → Exists (dead_key queue) b
      → let held = or_else 0 (ready (dead_key queue) b.server) + 1 in
        let (answer, end) = dead_letter died now (amqp queue acker r) error traceback keep b in
        (answer ≡ ok tt)
        × (ready (dead_key queue) end.server ≡ some (if keep == 0 then held else min held keep))
  unfolding dead_letter
  dead_letter-caps died now queue acker r error traceback keep b exists =
      let dead = dead_key queue in
      let extra = bury_headers error traceback died in
      let b1 = (declare_once dead b).1 in
      let (sent, adds) =
        publish_record-adds laws dead r now extra (or_else 0 (ready dead b.server)) b1
          (made dead b exists) in
      let b2 = (publish_record dead r now extra b1).1 in
      let b3 = (ask (client.ack acker) b2).1 in
      let path : dead_letter died now (amqp queue acker r) error traceback keep b
          ≡ enforce_cap dead keep b3 =
        after-ok (declare_once dead b) _ tt (declare_once-makes laws dead dead b exists).0
        ∙ after-ok (publish_record dead r now extra b1) _ tt sent
        ∙ after-ok (ask (client.ack acker) b2) _ tt (laws.ack-answers acker b2.server) in
      rw path (
        capped dead keep (or_else 0 (ready dead b.server) + 1) b3
          (laws.ack-keeps acker dead b2.server ∙ adds))
