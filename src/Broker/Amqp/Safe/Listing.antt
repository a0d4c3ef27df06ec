-- ===== src/Broker/Amqp/Safe/Listing.antt =====
-- Looking at queues, draining dead letters and keeping results leave the broker sound.
use tarsk.Base.{
  Bool, Bool-cases, List, Text, [], arith, false, if◌then◌else◌, inl, inr, leb, length, map, none,
  true, ℕ, ◌++◌, ◌-◌, ◌∷◌, ◌≡◌,
}
use tarsk.Broker.{AmqpRecord, Listed, result_key, stream_key}
use tarsk.Broker.Running.{done}
use tarsk.Broker.Amqp.Dead.{
  Seen, dead_drain, dead_key, dead_list, is_wanted, jobs, jobs_onto, listed_of, replay_one,
  settle_one, settle_seen,
}
use tarsk.Broker.Amqp.Log.{Oracle, is_safe, logging, probed, reply, was_declared}
use tarsk.Broker.Amqp.Results.{
  depth, found_result, get_result, is_missing, result_arguments, store_result,
}
use tarsk.Broker.Amqp.Safe.{Always, Ensures->>=, Ensures-when_found}
use tarsk.Broker.Amqp.Safe.Asks.{ask-ack, ask-declare, ask-get, ask-nack, ask-publish, quiet}
use tarsk.Broker.Amqp.Safe.Calls.{
  declare_once-Ensures, declare_plain-Ensures, peek-Ensures, publish_record-Ensures,
  requeue_all-Ensures,
}
use tarsk.Broker.Amqp.Safe.Operations.{Keeps}

module _ {Acker : Type 0} (o : Oracle Acker) where
  jobs_onto-Keeps :
      (opened : List Text) (lossy : Text → Text) (times : ℕ → ℕ) (limit : ℕ) (rows : List Listed)
      (wanted : List Text)
      → Keeps o opened (jobs_onto {client = logging o} lossy times limit rows wanted)
  unfolding jobs_onto
  jobs_onto-Keeps opened lossy times limit rows [] = λ b sound _. (sound, tt)
  jobs_onto-Keeps opened lossy times limit rows (queue ∷ wanted) =
      Ensures->>= o (Always o) (Always o) _ _
        (peek-Ensures o opened lossy (stream_key queue) (limit - length rows))
        λ seen.
          let filled = rows ++ map (listed_of (times (length wanted)) queue) seen in
          Ensures->>= o (Always o) (Always o) _ _ (requeue_all-Ensures o opened seen) λ _ b sound _.
            elim (Bool-cases (leb limit (length filled))) [
              | inl full ↦ rw full (sound, tt)
              | inr room ↦
                  rw room (jobs_onto-Keeps opened lossy times limit filled wanted b sound tt)
            ]

  pub jobs-Keeps :
      (opened : List Text) (lossy : Text → Text) (times : ℕ → ℕ) (wanted : List Text) (limit : ℕ)
      → Keeps o opened (jobs {client = logging o} lossy times wanted limit)
  unfolding jobs
  jobs-Keeps opened lossy times wanted limit = jobs_onto-Keeps opened lossy times limit [] wanted

  pub dead_list-Keeps :
      (opened : List Text) (lossy : Text → Text) (queue : Text) (limit : ℕ)
      → Keeps o opened (dead_list {client = logging o} lossy queue limit)
  unfolding dead_list
  dead_list-Keeps opened lossy queue limit =
      Ensures->>= o (Always o) (Always o) _ _ (peek-Ensures o opened lossy (dead_key queue) limit)
        λ seen.
          Ensures->>= o (Always o) (Always o) _ _ (requeue_all-Ensures o opened seen)
            (λ _ b sound _. (sound, tt))

  replay_one-Keeps :
      (opened : List Text) (now : ℕ) (queue : Text) (r : AmqpRecord)
      → Keeps o opened (replay_one {client = logging o} now queue r)
  replay_one-Keeps opened now queue r =
      Ensures->>= o (λ _ b. was_declared (stream_key queue) b.server ≡ true) (Always o) _ _
        (declare_once-Ensures o opened (stream_key queue))
        λ _. publish_record-Ensures o opened (stream_key queue) (record r { attempt = 0 }) now []

  settle_one-Keeps :
      (opened : List Text) (now : ℕ) (queue : Text) (replay : Bool) (r : AmqpRecord)
      → Keeps o opened (settle_one {client = logging o} now queue replay r)
  settle_one-Keeps opened now queue true r = replay_one-Keeps opened now queue r
  settle_one-Keeps opened now queue false r = λ b sound _. (sound, tt)

  settle_seen-Keeps :
      (opened : List Text) (times : ℕ → ℕ) (queue : Text) (ids : List Text) (replay : Bool)
      (seen : List (Seen Acker))
      → Keeps o opened (settle_seen {client = logging o} times queue ids replay seen)
  unfolding settle_seen
  settle_seen-Keeps opened times queue ids replay [] = λ b sound _. (sound, tt)
  settle_seen-Keeps opened times queue ids replay (s ∷ rest) = elim (Bool-cases (is_wanted ids s)) [
    | inl wanted ↦ rw wanted (
        Ensures->>= o (Always o) (Always o) _ _
          (settle_one-Keeps opened (times (length rest)) queue replay s.carried)
          λ _. Ensures->>= o (Always o) (Always o) _ _ (ask-ack o opened s.acker) λ _.
            Ensures->>= o (Always o) (Always o) _ _
              (settle_seen-Keeps opened times queue ids replay rest)
              (λ both b sound _. (sound, tt)))
    | inr other ↦ rw other (
        Ensures->>= o (Always o) (Always o) _ _
          (settle_seen-Keeps opened times queue ids replay rest) (λ both b sound _. (sound, tt)))
  ]

  pub dead_drain-Keeps :
      (opened : List Text) (lossy : Text → Text) (times : ℕ → ℕ) (queue : Text) (ids : List Text)
      (replay : Bool)
      → Keeps o opened (dead_drain {client = logging o} lossy times queue ids replay)
  unfolding dead_drain
  dead_drain-Keeps opened lossy times queue ids replay =
      Ensures->>= o (Always o) (Always o) _ _ (peek-Ensures o opened lossy (dead_key queue) 10000)
        λ seen.
          Ensures->>= o (Always o) (Always o) _ _
            (settle_seen-Keeps opened times queue ids replay seen)
            λ both.
              Ensures->>= o (Always o) (Always o) _ _ (requeue_all-Ensures o opened both.1)
                (λ _ b sound _. (sound, tt))

  pub store_result-Keeps :
      (opened : List Text) (id blob : Text) (ttl : ℕ)
      → Keeps o opened (store_result {client = logging o} id blob ttl)
  unfolding store_result
  store_result-Keeps opened id blob ttl =
      Ensures->>= o (λ n b. was_declared (result_key id) b.server ≡ true) (Always o) _ _
        (ask-declare o opened (result_key id) (result_arguments ttl))
        λ _. ask-publish o opened (result_key id) blob []

  is_missing-Keeps :
      (opened : List Text) (name : Text) → Keeps o opened (is_missing {client = logging o} name)
  unfolding is_missing was_declared is_safe
  is_missing-Keeps opened name b sound _ = (
    quiet o opened b (reply o (probed name) (λ _. tt {0}) b.server).1 (ground (arith, sound.safe))
        (λ n h. ground (arith, h)) sound,
    tt,
  )

  found_result-Keeps :
      (opened : List Text) (id : Text) (missing : Bool)
      → Keeps o opened (if missing then done none else found_result {client = logging o} id)
  found_result-Keeps opened id true = λ b sound _. (sound, tt)
  found_result-Keeps opened id false =
      Ensures->>= o (Always o) (Always o) _ _ (ask-get o opened (result_key id)) λ found.
        Ensures-when_found o (λ b. Unit) (Always o) found _ _ (λ b sound _. (sound, tt))
          λ m.
            Ensures->>= o (Always o) (Always o) _ _ (ask-nack o opened m.acker)
              (λ _ b sound _. (sound, tt))

  pub get_result-Keeps :
      (opened : List Text) (id : Text) → Keeps o opened (get_result {client = logging o} id)
  unfolding get_result
  get_result-Keeps opened id =
      Ensures->>= o (Always o) (Always o) (is_missing {client = logging o} (result_key id)) _
        (is_missing-Keeps opened (result_key id)) (found_result-Keeps opened id)

  pub depth-Keeps :
      (opened : List Text) (wanted : List Text) → Keeps o opened (depth {client = logging o} wanted)
  unfolding depth
  depth-Keeps opened [] = λ b sound _. (sound, tt)
  depth-Keeps opened (queue ∷ wanted) =
      Ensures->>= o (λ n b. was_declared (stream_key queue) b.server ≡ true) (Always o) _ _
        (declare_plain-Ensures o opened (stream_key queue))
        λ count.
          Ensures->>= o (λ n b. was_declared (dead_key queue) b.server ≡ true) (Always o) _ _
            (λ b sound _. declare_plain-Ensures o opened (dead_key queue) b sound tt)
            λ dead.
              Ensures->>= o (Always o) (Always o) _ _
                (λ b sound _. depth-Keeps opened wanted b sound tt) (λ rows b sound _. (sound, tt))
