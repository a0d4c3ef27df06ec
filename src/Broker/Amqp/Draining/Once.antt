-- ===== src/Broker/Amqp/Draining/Once.antt =====
-- Each message that a drain looks at is settled exactly once.
use tarsk.Base.{
  Bool, Bool-cases, List, Res, Text, [], ap, arith, if◌then◌else◌, inl, inr, length, ok, refl,
  subst, sym, true, ℕ, ◌+◌, ◌∷◌, ◌≡◌,
}
use tarsk.Broker.Running.{done, ◌>>=◌}
use tarsk.Broker.Amqp.Client.{AmqpBroker, ask}
use tarsk.Broker.Amqp.Dead.{
  Seen, dead_drain, dead_key, is_wanted, peek, requeue_all, settle_one, settle_seen,
}
use tarsk.Broker.Amqp.Draining.{
  Shows, ask_ack-Shows, copy_of, drained, moves, onto, others, peek-Shows, requeue_all-Shows,
  settle_one-Shows, wanted, went_back,
}
use tarsk.Broker.Amqp.Log.{Log, Oracle, acked, logging}
use tarsk.Broker.Amqp.Safe.{Post, Post-after, Post-self, succeeded}

module _ {Acker : Type 0} (o : Oracle Acker) where
  module _ (times : ℕ → ℕ) (queue : Text) (ids : List Text) (replay : Bool) where
    abbrev IsDrained :
        List (Seen Acker) → Log Acker → ℕ × List (Seen Acker) → AmqpBroker (logging o) → Type 0
    IsDrained seen log both b =
        (both.0 ≡ length (wanted ids seen))
        × (both.1 ≡ others ids seen)
        × Shows o (drained times queue ids replay seen log) b

    settle_seen-IsDrained :
        (seen : List (Seen Acker)) (log : Log Acker) (b : AmqpBroker (logging o))
        → Shows o log b
        → Post o
            (IsDrained seen log)
            (settle_seen {client = logging o} times queue ids replay seen b)
    unfolding settle_seen
    settle_seen-IsDrained [] log b shows = (refl, refl, shows)
    settle_seen-IsDrained (s ∷ seen) log b shows =
        let now = times (length seen) in
        let rest = settle_seen {client = logging o} times queue ids replay seen in
        let whole = settle_seen {client = logging o} times queue ids replay (s ∷ seen) in
        let Q = IsDrained (s ∷ seen) log in
        elim (Bool-cases (is_wanted ids s)) [
          | inl want ↦
              let copied = if replay then copy_of now queue s ∷ log else log in
              let gone : Log Acker = (acked s.acker, true) ∷ copied in
              let settled = settle_one {client = logging o} now queue replay s.carried in
              let settled_for_good = ask {client = logging o} ((logging o).ack s.acker) in
              let taken : whole b
                  ≡ (settled >>= λ _.
                        settled_for_good >>= λ _. rest >>= λ both. done (both.0 + 1, both.1))
                      b =
                rw want refl in
              subst (Post o Q) (sym taken) (
                Post-after o (λ _. Shows o copied) Q _ (settled b)
                  (settle_one-Shows o now queue replay s log b shows)
                  λ _ c t.
                    Post-after o (λ _. Shows o gone) Q _ (settled_for_good c)
                      (ask_ack-Shows o copied c t s.acker)
                      λ _ d u.
                        Post-after o (IsDrained seen gone) Q _ (rest d)
                          (settle_seen-IsDrained seen gone d u)
                          λ both e (count, left, v). rw want (ground (arith, count), left, v))
          | inr other ↦
              let left : whole b ≡ (rest >>= λ both. done (both.0, s ∷ both.1)) b = rw other refl in
              subst (Post o Q) (sym left) (
                Post-after o (IsDrained seen log) Q _ (rest b)
                  (settle_seen-IsDrained seen log b shows)
                  λ both e (count, left, v). rw other (count, ap (λ rest. s ∷ rest) left, v))
        ]

  -- What a drain of the messages `seen`, from `b`, has done in the end.
  record Settled (times : ℕ → ℕ) (queue : Text) (ids : List Text) (replay : Bool)
      (b : AmqpBroker (logging o)) (looked : Res (List (Seen Acker))) (n : ℕ)
      (c : AmqpBroker (logging o)) : Type 0 where
    seen : List (Seen Acker)
    found : looked ≡ ok seen
    count : n ≡ length (wanted ids seen)
    shows :
        Shows o
          (onto went_back (others ids seen) (drained times queue ids replay seen (moves b.server)))
          c

  dead_drain-Settled :
      (lossy : Text → Text) (times : ℕ → ℕ) (queue : Text) (ids : List Text) (replay : Bool)
      (b : AmqpBroker (logging o))
      → Post o
          (Settled times queue ids replay b
            (peek {client = logging o} lossy (dead_key queue) 10000 b).0)
          (dead_drain {client = logging o} lossy times queue ids replay b)
  unfolding dead_drain
  dead_drain-Settled lossy times queue ids replay b =
      let before = moves b.server in
      let looked = peek {client = logging o} lossy (dead_key queue) 10000 b in
      let R = Settled times queue ids replay b looked.0 in
      let Same : List (Seen Acker) → AmqpBroker (logging o) → Type 0 = λ _. Shows o before in
      Post-after o (λ seen c. (looked.0 ≡ ok seen) × Same seen c) R _ looked
        (Post-self o Same looked (peek-Shows o lossy (dead_key queue) 10000 before b refl))
        λ seen c (found, t).
          Post-after o (IsDrained times queue ids replay seen before) R _
            (settle_seen {client = logging o} times queue ids replay seen c)
            (settle_seen-IsDrained times queue ids replay seen before c t)
            λ both d (count, left, u).
              let gone = drained times queue ids replay seen before in
              Post-after o (λ _. Shows o (onto went_back both.1 gone)) R _
                (requeue_all {client = logging o} both.1 d) (requeue_all-Shows o both.1 gone d u)
                λ _ e v. record {
                  seen = seen;
                  found = found;
                  count = count;
                  shows = subst (λ rest. Shows o (onto went_back rest gone) e) left v;
                }

  -- A drain that succeeds settles each message that it looked at exactly once. Those whose ids are
  -- asked for, or all where no id is given, are acked in their order, where the drain replays each
  -- right after its copy went to the main queue, as a first attempt, and was confirmed. After them
  -- every other goes back to the dead letters. Nothing else is published, acked or put back, and the
  -- answer counts the first.
  pub dead_drain-settles :
      (lossy : Text → Text) (times : ℕ → ℕ) (queue : Text) (ids : List Text) (replay : Bool) (n : ℕ)
      (b : AmqpBroker (logging o))
      → (dead_drain {client = logging o} lossy times queue ids replay b).0 ≡ ok n
      → let log = (dead_drain {client = logging o} lossy times queue ids replay b).1.server in
        (seen : List (Seen Acker)) × ((peek {client = logging o} lossy (dead_key queue) 10000 b).0
          ≡ ok seen)
        × (n ≡ length (wanted ids seen))
        × (moves log
            ≡ onto went_back
                (others ids seen)
                (drained times queue ids replay seen (moves b.server)))
  dead_drain-settles lossy times queue ids replay n b succeeds =
      let end =
        succeeded o
          (Settled times queue ids replay b
            (peek {client = logging o} lossy (dead_key queue) 10000 b).0)
          n (dead_drain {client = logging o} lossy times queue ids replay b) succeeds
          (dead_drain-Settled lossy times queue ids replay b) in
      (end.seen, end.found, end.count, end.shows)
