-- ===== src/Broker/Amqp/Safe/Reached.antt =====
-- What holds wherever a broker gets, from its connection on, whatever its server answers.
use Prim.Native.Nat.{differ}
use tarsk.Base.{
  Bool, Bool-cases, List, Res, Text, [], arith, contains, err, inl, inr, keep, ok, refl, subst,
  text_eq, true, ℕ, ◌==◌, ◌||◌, ◌∷◌, ◌≡◌,
}
use tarsk.Broker.{NewJob, Receipt, stream_key}
use tarsk.Base.Dict.{lookup}
use tarsk.Broker.Amqp.Client.{AmqpBroker, ask, declare_plain}
use tarsk.Broker.Amqp.Dead.{dead_drain, dead_letter, dead_list, jobs}
use tarsk.Broker.Amqp.Driver.{claim, connect, declare_all, push, retry}
use tarsk.Broker.Amqp.Log.{Oracle, is_safe, logging, was_declared}
use tarsk.Broker.Amqp.Results.{depth, get_result, store_result}
use tarsk.Broker.Amqp.Safe.{IsSound, Post, Post-after, succeeded}
use tarsk.Broker.Amqp.Safe.Asks.{ask-ack}
use tarsk.Broker.Amqp.Safe.Calls.{declare_plain-Ensures}
use tarsk.Broker.Amqp.Safe.Listing.{
  dead_drain-Keeps, dead_list-Keeps, depth-Keeps, get_result-Keeps, jobs-Keeps, store_result-Keeps,
}
use tarsk.Broker.Amqp.Safe.Operations.{
  IsFrom, claim-Keeps, dead_letter-Keeps, push-Keeps, retry-Keeps,
}

module _ {Acker : Type 0} (o : Oracle Acker) where
  abbrev onto : List Text → List Text → List Text
  onto [] opened = opened
  onto (queue ∷ queues) opened = onto queues (queue ∷ opened)

  contains-onto :
      (queues opened : List Text) (queue : Text)
      → contains queues queue || contains opened queue ≡ true
      → contains (onto queues opened) queue ≡ true
  unfolding contains
  contains-onto [] opened queue h = ground (arith, h)
  contains-onto (q ∷ queues) opened queue h =
      contains-onto queues (q ∷ opened) queue (ground (arith, h))

  widen :
      (opened : List Text) (queue : Text) (r : Res ℕ × AmqpBroker (logging o))
      → IsSound o opened r.1
      → Post o (λ n b. was_declared (stream_key queue) b.server ≡ true) r
      → Post o (λ n b. IsSound o (queue ∷ opened) b) r
  unfolding contains
  widen opened queue (ok n, b) sound there = record {
    safe = sound.safe;
    known = sound.known;
    ready = λ q h. elim (Bool-cases (queue == q)) [
      | inl same ↦
          subst (λ q. was_declared (stream_key q) b.server ≡ true)
            ((text_eq.beq_iff queue q).0 same) there
      | inr differ ↦ sound.ready q (ground (arith, h, differ))
    ];
  }
  widen opened queue (err, b) sound there = tt

  declare_all-Post :
      (queues opened : List Text) (b : AmqpBroker (logging o))
      → IsSound o opened b
      → Post o (λ n b. IsSound o (onto queues opened) b) (declare_all {client = logging o} queues b)
  unfolding declare_all
  declare_all-Post [] opened b sound = sound
  declare_all-Post (queue ∷ queues) opened b sound =
      let (kept, there) = declare_plain-Ensures o opened (stream_key queue) b sound tt in
      Post-after o (λ n b. IsSound o (queue ∷ opened) b)
        (λ n b. IsSound o (onto queues (queue ∷ opened)) b)
        (λ _. declare_all {client = logging o} queues)
        (declare_plain {client = logging o} (stream_key queue) b)
        (widen opened queue (declare_plain {client = logging o} (stream_key queue) b) kept there)
        (λ n b s. declare_all-Post queues (queue ∷ opened) b s)

  -- One operation of the broker, on any arguments, whether it succeeds or not. A receipt that is
  -- settled names a queue of the broker, as those that `claim` hands out do.
  pub data Step (queues : List Text)
      : AmqpBroker (logging o) → AmqpBroker (logging o) → Type 0 where
    pushes :
        (b : AmqpBroker (logging o)) (now : ℕ) (job : NewJob) (delay : ℕ)
        → Step queues b (push {client = logging o} now job delay b).1
    claims :
        (b : AmqpBroker (logging o)) (lossy : Text → Text) (waits : ℕ)
        → Step queues b (claim {client = logging o} lossy waits b).1
    acks :
        (b : AmqpBroker (logging o)) (acker : Acker)
        → Step queues b (ask {client = logging o} ((logging o).ack acker) b).1
    retries :
        (b : AmqpBroker (logging o)) (now : ℕ) (receipt : Receipt Acker) (delay : ℕ)
        → IsFrom o queues receipt
        → Step queues b (retry {client = logging o} now receipt delay b).1
    buries :
        (b : AmqpBroker (logging o)) (died now : ℕ) (receipt : Receipt Acker)
        (error traceback : Text) (keep : ℕ)
        → Step queues b (dead_letter {client = logging o} died now receipt error traceback keep b).1
    lists :
        (b : AmqpBroker (logging o)) (lossy : Text → Text) (times : ℕ → ℕ) (wanted : List Text)
        (limit : ℕ)
        → Step queues b (jobs {client = logging o} lossy times wanted limit b).1
    lists_dead :
        (b : AmqpBroker (logging o)) (lossy : Text → Text) (queue : Text) (limit : ℕ)
        → Step queues b (dead_list {client = logging o} lossy queue limit b).1
    drains :
        (b : AmqpBroker (logging o)) (lossy : Text → Text) (times : ℕ → ℕ) (queue : Text)
        (ids : List Text) (replay : Bool)
        → Step queues b (dead_drain {client = logging o} lossy times queue ids replay b).1
    stores :
        (b : AmqpBroker (logging o)) (id blob : Text) (ttl : ℕ)
        → Step queues b (store_result {client = logging o} id blob ttl b).1
    reads :
        (b : AmqpBroker (logging o)) (id : Text)
        → Step queues b (get_result {client = logging o} id b).1
    counts :
        (b : AmqpBroker (logging o)) (wanted : List Text)
        → Step queues b (depth {client = logging o} wanted b).1

  pub data Reach (queues : List Text) (b : AmqpBroker (logging o))
      : AmqpBroker (logging o) → Type 0 where
    stay : Reach queues b b
    further : {c d : AmqpBroker (logging o)} → Reach queues b c → Step queues c d → Reach queues b d

  Step-IsSound :
      (queues : List Text) (b c : AmqpBroker (logging o))
      → Step queues b c
      → IsSound o queues b
      → IsSound o queues c
  Step-IsSound queues b _ (pushes _ now job delay) sound =
      (push-Keeps o queues now job delay b sound tt).0
  Step-IsSound queues b _ (claims _ lossy waits) sound =
      (claim-Keeps o queues lossy waits b sound tt).0
  Step-IsSound queues b _ (acks _ acker) sound = (ask-ack o queues acker b sound tt).0
  Step-IsSound queues b _ (retries _ now receipt delay from) sound =
      (retry-Keeps o queues now receipt delay from b sound tt).0
  Step-IsSound queues b _ (buries _ died now receipt error traceback keep) sound =
      (dead_letter-Keeps o queues died now receipt error traceback keep b sound tt).0
  Step-IsSound queues b _ (lists _ lossy times wanted limit) sound =
      (jobs-Keeps o queues lossy times wanted limit b sound tt).0
  Step-IsSound queues b _ (lists_dead _ lossy queue limit) sound =
      (dead_list-Keeps o queues lossy queue limit b sound tt).0
  Step-IsSound queues b _ (drains _ lossy times queue ids replay) sound =
      (dead_drain-Keeps o queues lossy times queue ids replay b sound tt).0
  Step-IsSound queues b _ (stores _ id blob ttl) sound =
      (store_result-Keeps o queues id blob ttl b sound tt).0
  Step-IsSound queues b _ (reads _ id) sound = (get_result-Keeps o queues id b sound tt).0
  Step-IsSound queues b _ (counts _ wanted) sound = (depth-Keeps o queues wanted b sound tt).0

  Reach-IsSound :
      (queues : List Text) (b c : AmqpBroker (logging o))
      → Reach queues b c
      → IsSound o queues b
      → IsSound o queues c
  Reach-IsSound queues b _ stay sound = sound
  Reach-IsSound queues b _ (further {c = c} {d = d} way s) sound =
      Step-IsSound queues c d s (Reach-IsSound queues b c way sound)

  connect-IsSound :
      (queues : List Text)
      → (connect {client = logging o} queues []).0 ≡ ok tt
      → IsSound o queues (connect {client = logging o} queues []).1
  unfolding connect is_safe was_declared lookup contains
  connect-IsSound queues connected =
      let start : AmqpBroker (logging o) = record { server = []; queues = queues; declared = [] } in
      let sound : IsSound o [] start = record {
        safe = refl;
        known = λ name h. absurd (ground (arith, h));
        ready = λ queue h. absurd (ground (arith, h));
      } in
      let reached =
        succeeded o (λ _ b. IsSound o (onto queues []) b) tt
          (declare_all {client = logging o} queues start) connected
          (declare_all-Post queues [] start sound) in
      record {
        safe = reached.safe;
        known = reached.known;
        ready = λ queue h. reached.ready queue (contains-onto queues [] queue (ground (arith, h)));
      }

  -- Whatever the server answers, a broker that has connected publishes only to queues that it has
  -- declared before, with success, in every state that its operations lead to: at a job, a retry, a
  -- dead letter, a replay or a result. The receipts it settles name queues that it was opened on.
  pub publishes_declared :
      (queues : List Text) (b : AmqpBroker (logging o))
      → (connect {client = logging o} queues []).0 ≡ ok tt
      → Reach queues (connect {client = logging o} queues []).1 b
      → is_safe b.server ≡ true
  publishes_declared queues b connected way =
      (Reach-IsSound queues (connect {client = logging o} queues []).1 b way
        (connect-IsSound queues connected)).safe
