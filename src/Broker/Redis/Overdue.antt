-- ===== src/Broker/Redis/Overdue.antt =====
-- RedisBroker (broker.rs): a job that is handed back is taken over after its delay, and an entry is
-- taken over only past its own deadline.
use mathlib.Core.List.{append_assoc}
use tarsk.Base.{
  Bool-cases, List, Res, Text, [], ap, arith, inl, inr, leb, length, max, min, nat_eq, ok, refl,
  sym, true, ℕ, ◌++◌, ◌+◌, ◌-◌, ◌<◌, ◌==◌, ◌^◌, ◌∙◌, ◌∷◌, ◌≡◌,
}
use tarsk.Broker.{as_millis, stream_key, u32, u64}
use tarsk.Broker.Redis.{
  Pending, RedisBroker, RedisClient, StreamId, delivery_of, entry_timeout, send,
}
use tarsk.Broker.Running.{done, ◌>>=◌}
use tarsk.Broker.Redis.Settling.{
  idle_for, is_overdue, reclaim_entry, reclaim_expired, reclaim_one, reclaim_queues, reclaim_some,
  saturating_u64, take_won,
}
use tarsk.Broker.Redis.Sweeping.{
  Adds, Adds-after, Adds-from, Adds-nothing, Passes, Passes-trans, Same, lists, looks, plus-Adds,
  unasked, wins,
}

-- An entry whose clock was set at a retry is overdue exactly when the delay has passed, or a whole
-- deadline where that is less. No number overflows.
pub idle_for-is_overdue :
    (deadline delay_ms passed : ℕ)
    → deadline + 1 < 2 ^ 64
    → is_overdue (idle_for deadline delay_ms + passed) deadline ≡ leb (min delay_ms deadline) passed
idle_for-is_overdue deadline delay_ms passed small = ground (arith, small)

module _ {client : RedisClient} {Acker : Type 0} (grace_ms : ℕ) where
  module _ (start : client.Server) (queue : Text) (floor now : ℕ) (candidate : Pending)
      (front behind : List Pending)
      (listed : (client.pending (stream_key queue) floor 64 start).0
        ≡ ok (front ++ candidate ∷ behind))
      (b : RedisBroker client Acker)
      (goes_on : Passes client (client.pending (stream_key queue) floor 64 start).1 b.server) where
    abbrev looked : Res (List StreamId) × RedisBroker client Acker
    looked = send (client.range_one (stream_key queue) candidate.id) b

    abbrev claimed_by : StreamId → Res (List Text) × RedisBroker client Acker
    claimed_by entry =
        send
          (client.claim_idle (stream_key queue) b.consumer
            (u64 (entry_timeout client entry + grace_ms)) candidate.id)
          looked.1

    looked-Same : Same grace_ms b looked.1
    looked-Same = (refl, refl, looks b.server (stream_key queue) candidate.id unasked)

    claimed_by-Same : (entry : StreamId) → Same grace_ms b (claimed_by entry).1
    claimed_by-Same entry = (
      refl,
      refl,
      wins looked.1.server (stream_key queue) b.consumer
          (u64 (entry_timeout client entry + grace_ms)) candidate.id looked-Same.2,
    )

    take_won-Adds :
        (entry : StreamId) (entries : List StreamId) (won : List Text)
        → looked.0 ≡ ok (entry ∷ entries)
        → is_overdue candidate.last_delivered_ms (u64 (entry_timeout client entry + grace_ms))
          ≡ true
        → (claimed_by entry).0 ≡ ok won
        → Adds grace_ms start b (take_won now queue candidate entry won (claimed_by entry).1)
    take_won-Adds entry entries [] found overdue given =
        Adds-nothing grace_ms start b _ (claimed_by-Same entry) (inr refl)
    take_won-Adds entry entries (w ∷ won) found overdue given = record {
      held =
          (
            delivery_of client queue candidate.id (u32 (candidate.times_delivered + 1)) entry,
            now,
            max (entry_timeout client entry) 1,
          )
          ∷ [];
      buffered = refl;
      consumer_path = refl;
      passes = (claimed_by-Same entry).2;
      taken = (
        record {
          queue = queue;
          floor = floor;
          now = now;
          candidate = candidate;
          front = front;
          behind = behind;
          entry = entry;
          entries = entries;
          won = w;
          others = won;
          listing = start;
          looking = b.server;
          starts = unasked;
          listed = listed;
          goes_on = goes_on;
          found = found;
          overdue = overdue;
          given = given;
          ends = unasked;
          waits = refl;
        },
        tt,
      );
      fate = inr refl;
    }

    reclaim_entry-Adds :
        (entries : List StreamId)
        → looked.0 ≡ ok entries
        → Adds grace_ms start b (reclaim_entry grace_ms now queue candidate entries looked.1)
    reclaim_entry-Adds [] found = Adds-nothing grace_ms start b _ looked-Same (inr refl)
    reclaim_entry-Adds (entry ∷ entries) found =
        let deadline = u64 (entry_timeout client entry + grace_ms) in
        elim (Bool-cases (is_overdue candidate.last_delivered_ms deadline)) [
          | inl overdue ↦ rw overdue (
              Adds-after grace_ms start b (claimed_by entry) (take_won now queue candidate entry)
                (claimed_by-Same entry)
                (λ won given. take_won-Adds entry entries won found overdue given))
          | inr early ↦
              rw early (Adds-nothing grace_ms start b (ok 0, looked.1) looked-Same (inr refl))
        ]

    reclaim_one-Adds : Adds grace_ms start b (reclaim_one grace_ms now queue candidate b)
    unfolding reclaim_one
    reclaim_one-Adds =
        Adds-after grace_ms start b looked (reclaim_entry grace_ms now queue candidate) looked-Same
          reclaim_entry-Adds

  reclaim_some-Adds :
      (start : client.Server) (queue : Text) (floor : ℕ) (times : ℕ → ℕ)
      (front candidates : List Pending) (b : RedisBroker client Acker)
      → (client.pending (stream_key queue) floor 64 start).0 ≡ ok (front ++ candidates)
      → Passes client (client.pending (stream_key queue) floor 64 start).1 b.server
      → Adds grace_ms start b (reclaim_some grace_ms times queue candidates b)
  unfolding reclaim_some
  reclaim_some-Adds start queue floor times front [] b listed goes_on =
      Adds-nothing grace_ms start b (ok 0, b) (refl, refl, unasked) (inr refl)
  reclaim_some-Adds start queue floor times front (candidate ∷ rest) b listed goes_on =
      plus-Adds grace_ms start b (reclaim_one grace_ms (times (length rest)) queue candidate b)
        (reclaim_some grace_ms times queue rest)
        (reclaim_one-Adds start queue floor (times (length rest)) candidate front rest listed b
          goes_on)
        (λ c passes.
          reclaim_some-Adds start queue floor times (front ++ candidate ∷ []) rest c
            (listed ∙ ap ok (sym (append_assoc front (candidate ∷ []) rest)))
            (Passes-trans client _ b.server c.server goes_on passes))

  reclaim_queues-Adds :
      (floor : ℕ) (times : ℕ → ℕ → ℕ) (queues : List Text) (b : RedisBroker client Acker)
      → Adds grace_ms b.server b (reclaim_queues floor grace_ms times queues b)
  unfolding reclaim_queues
  reclaim_queues-Adds floor times [] b =
      Adds-nothing grace_ms b.server b (ok 0, b) (refl, refl, unasked) (inr refl)
  reclaim_queues-Adds floor times (queue ∷ queues) b =
      let asked = send (client.pending (stream_key queue) floor 64) b in
      let same : Same grace_ms b asked.1 =
        (refl, refl, lists b.server (stream_key queue) floor 64 unasked) in
      Adds-after grace_ms b.server b asked _ same λ candidates listed.
        Adds-from grace_ms b.server b.server b asked.1
          ((reclaim_some grace_ms (times (length queues)) queue candidates >>= λ taken.
              reclaim_queues floor grace_ms times queues >>= λ others. done (taken + others))
            asked.1)
          same unasked
          (plus-Adds grace_ms b.server asked.1
            (reclaim_some grace_ms (times (length queues)) queue candidates asked.1)
            (reclaim_queues floor grace_ms times queues)
            (reclaim_some-Adds b.server queue floor (times (length queues)) [] candidates asked.1
              listed unasked)
            (λ d passes.
              Adds-from grace_ms b.server d.server d d _ (refl, refl, unasked)
                (Passes-trans client b.server asked.1.server d.server same.2 passes)
                (reclaim_queues-Adds floor times queues d)))

module _ {client : RedisClient} {Acker : Type 0} where
  pub reclaim_expired-Adds :
      (grace : ℕ) (times : ℕ → ℕ → ℕ) (b : RedisBroker client Acker)
      → Adds (u64 (as_millis grace)) b.server b (reclaim_expired grace times b)
  unfolding reclaim_expired
  reclaim_expired-Adds grace times b =
      let grace_ms = u64 (as_millis grace) in
      let learned = record b { grace_ms = grace_ms } in
      elim (Bool-cases (b.min_timeout_ms == 2 ^ 64 - 1)) [
        | inl unknown ↦
            rw unknown
              (Adds-nothing grace_ms b.server b (ok 0, learned) (refl, refl, unasked) (inr refl))
        | inr known ↦
            let floor = saturating_u64 (b.min_timeout_ms + grace_ms) in
            rw known (
              Adds-from grace_ms b.server b.server b learned
                (reclaim_queues floor grace_ms times b.queues learned) (refl, refl, unasked) unasked
                (reclaim_queues-Adds grace_ms floor times b.queues learned))
      ]
