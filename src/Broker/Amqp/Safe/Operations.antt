-- ===== src/Broker/Amqp/Safe/Operations.antt =====
-- Every operation keeps the broker sound, whether it succeeds or not.
use tarsk.Base.{
  Bool-cases, List, Text, [], contains, inl, inr, leb, nat_eq, suc, text_eq, true, zero, ℕ, ◌+◌,
  ◌==◌, ◌∷◌, ◌≡◌,
}
use tarsk.Broker.{NewJob, Receipt, amqp, memory, postgres, redis, stream_key, u32}
use tarsk.Broker.Amqp.{first_record}
use tarsk.Broker.Amqp.Client.{Run}
use tarsk.Broker.Amqp.Dead.{bury_headers, dead_key, dead_letter, trim}
use tarsk.Broker.Amqp.Driver.{claim, claim_pass, push, ready_at, retry}
use tarsk.Broker.Amqp.Log.{Oracle, logging, was_declared}
use tarsk.Broker.Amqp.Safe.{Always, Ensures, Ensures->>=, Ensures-when_found}
use tarsk.Broker.Amqp.Safe.Asks.{ask-ack, ask-get}
use tarsk.Broker.Amqp.Safe.Calls.{
  declare_once-Ensures, declare_plain-Ensures, publish_record-Ensures, target_for-Ensures,
}

module _ {Acker : Type 0} (o : Oracle Acker) where
  -- An operation that keeps the broker sound by itself.
  abbrev pub Keeps {ℓ} : {A : Type ℓ} → List Text → Run (logging o) A → Type 0
  Keeps opened m = Ensures o opened (λ b. Unit) m (Always o)

  pub push-Keeps :
      (opened : List Text) (now : ℕ) (job : NewJob) (delay : ℕ)
      → Keeps opened (push {client = logging o} now job delay)
  unfolding push
  push-Keeps opened now job delay =
      Ensures->>= o (λ _ b. was_declared (stream_key job.queue) b.server ≡ true) (Always o) _ _
        (declare_once-Ensures o opened (stream_key job.queue))
        λ _.
          Ensures->>= o (λ target b. was_declared target b.server ≡ true) (Always o) _ _
            (target_for-Ensures o opened job.queue delay)
            λ target.
              publish_record-Ensures o opened target (first_record job) (ready_at now delay) []

  claim_pass-Keeps :
      (opened : List Text) (lossy : Text → Text) (queues : List Text)
      → Keeps opened (claim_pass {client = logging o} lossy queues)
  unfolding claim_pass
  claim_pass-Keeps opened lossy [] = λ b sound _. (sound, tt)
  claim_pass-Keeps opened lossy (queue ∷ queues) =
      Ensures->>= o (Always o) (Always o) _ _ (ask-get o opened (stream_key queue)) λ found.
        Ensures-when_found o (λ b. Unit) (Always o) found _ _ (claim_pass-Keeps opened lossy queues)
          (λ m b sound _. (sound, tt))

  pub claim-Keeps :
      (opened : List Text) (lossy : Text → Text) (waits : ℕ)
      → Keeps opened (claim {client = logging o} lossy waits)
  unfolding claim
  claim-Keeps opened lossy zero = λ b. claim_pass-Keeps opened lossy b.queues b
  claim-Keeps opened lossy (suc waits) = λ b.
      Ensures->>= o (Always o) (Always o) (claim_pass {client = logging o} lossy b.queues) _
        (claim_pass-Keeps opened lossy b.queues)
        (λ found.
          Ensures-when_found o (λ b. Unit) (Always o) found _ _ (claim-Keeps opened lossy waits)
            (λ d b sound _. (sound, tt)))
        b

  -- The receipt names a queue that is open, if it is one of this kind of broker.
  abbrev pub IsFrom : List Text → Receipt Acker → Type 0
  IsFrom opened (amqp queue acker r) = contains opened queue ≡ true
  IsFrom opened _ = Unit

  pub retry-Keeps :
      (opened : List Text) (now : ℕ) (receipt : Receipt Acker) (delay : ℕ)
      → IsFrom opened receipt
      → Keeps opened (retry {client = logging o} now receipt delay)
  unfolding retry
  retry-Keeps opened now (amqp queue acker r) delay is_open = λ b sound _.
      Ensures->>= o (λ target b. was_declared target b.server ≡ true) (Always o) _ _
        (target_for-Ensures o opened queue delay)
        (λ target.
          Ensures->>= o (Always o) (Always o) _ _
            (publish_record-Ensures o opened target (record r { attempt = u32 (r.attempt + 1) })
              (ready_at now delay) [])
            (λ _. ask-ack o opened acker))
        b sound (sound.ready queue is_open)
  retry-Keeps opened now (memory id) delay is_open = λ b sound _. (sound, tt)
  retry-Keeps opened now (redis queue id) delay is_open = λ b sound _. (sound, tt)
  retry-Keeps opened now (postgres row lease) delay is_open = λ b sound _. (sound, tt)

  trim-Keeps :
      (opened : List Text) (dead : Text) (keep count : ℕ)
      → Keeps opened (trim {client = logging o} dead keep count)
  unfolding trim
  trim-Keeps opened dead keep zero = λ b sound _. (sound, tt)
  trim-Keeps opened dead keep (suc count) = λ b sound _. elim (Bool-cases (leb (suc count) keep)) [
    | inl few ↦ rw few (sound, tt)
    | inr many ↦ rw many (
        Ensures->>= o (Always o) (Always o) _ _ (ask-get o opened dead)
          (λ oldest.
            Ensures-when_found o (λ b. Unit) (Always o) oldest _ _ (λ b sound _. (sound, tt))
              (λ m.
                Ensures->>= o (Always o) (Always o) _ _ (ask-ack o opened m.acker)
                  (λ _. trim-Keeps opened dead keep count)))
          b sound tt)
  ]

  pub dead_letter-Keeps :
      (opened : List Text) (died now : ℕ) (receipt : Receipt Acker) (error traceback : Text)
      (keep : ℕ)
      → Keeps opened (dead_letter {client = logging o} died now receipt error traceback keep)
  unfolding dead_letter
  dead_letter-Keeps opened died now (amqp queue acker r) error traceback keep =
      Ensures->>= o (λ _ b. was_declared (dead_key queue) b.server ≡ true) (Always o) _ _
        (declare_once-Ensures o opened (dead_key queue))
        λ _.
          Ensures->>= o (Always o) (Always o) _ _
            (publish_record-Ensures o opened (dead_key queue) r now
              (bury_headers error traceback died))
            λ _. Ensures->>= o (Always o) (Always o) _ _ (ask-ack o opened acker) λ _ b sound _.
              elim (Bool-cases (keep == 0)) [
                | inl whole ↦ rw whole (sound, tt)
                | inr capped ↦ rw capped (
                    Ensures->>= o (λ _ b. was_declared (dead_key queue) b.server ≡ true) (Always o)
                      _ _ (declare_plain-Ensures o opened (dead_key queue))
                      (λ count b sound _. trim-Keeps opened (dead_key queue) keep count b sound tt)
                      b sound tt)
              ]
  dead_letter-Keeps opened died now (memory id) error traceback keep = λ b sound _. (sound, tt)
  dead_letter-Keeps opened died now (redis queue id) error traceback keep = λ b sound _. (sound, tt)
  dead_letter-Keeps opened died now (postgres row lease) error traceback keep =
      λ b sound _. (sound, tt)
