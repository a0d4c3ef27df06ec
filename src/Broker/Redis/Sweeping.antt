-- ===== src/Broker/Redis/Sweeping.antt =====
-- RedisBroker (broker.rs): what a sweep of the pending entries asks of the server, and an entry
-- that it takes over by the answers of the server.
use mathlib.Core.List.{append-nil, append_assoc}
use tarsk.Base.{
  All, All-append, List, Res, Text, [], ap, arith, err, inl, inr, length, length-append, max, ok,
  refl, subst, sym, true, ℕ, ◌++◌, ◌+◌, ◌∙◌, ◌∷◌, ◌≡◌, ◌⊎◌,
}
use tarsk.Broker.{stream_key, u32, u64}
use tarsk.Broker.Redis.{
  Held, Pending, RedisBroker, RedisClient, Run, StreamId, delivery_of, entry_timeout,
}
use tarsk.Broker.Running.{after, done, ◌>>=◌}
use tarsk.Broker.Redis.Settling.{is_overdue}

-- The states of the server in a sweep: between two of them it is asked for the pending entries of a
-- stream, for one entry, or to give one away.
pub data Passes (client : RedisClient) (s : client.Server) : client.Server → Type 0 where
  unasked : Passes client s s
  lists :
      (t : client.Server) (key : Text) (idle count : ℕ)
      → Passes client s t
      → Passes client s (client.pending key idle count t).1
  looks :
      (t : client.Server) (key id : Text)
      → Passes client s t
      → Passes client s (client.range_one key id t).1
  wins :
      (t : client.Server) (key consumer : Text) (idle : ℕ) (id : Text)
      → Passes client s t
      → Passes client s (client.claim_idle key consumer idle id t).1

pub Passes-trans :
    (client : RedisClient) (s t u : client.Server)
    → Passes client s t
    → Passes client t u
    → Passes client s u
Passes-trans client s t _ p unasked = p
Passes-trans client s t _ p (lists v key idle count q) =
    lists v key idle count (Passes-trans client s t v p q)
Passes-trans client s t _ p (looks v key id q) = looks v key id (Passes-trans client s t v p q)
Passes-trans client s t _ p (wins v key consumer idle id q) =
    wins v key consumer idle id (Passes-trans client s t v p q)

-- In a sweep that goes from `start` to `end`, the server listed `candidate` as pending, then showed
-- its entry, and then gave it to the consumer. By the idle time that the server listed, it was
-- pending longer than its own deadline, its timeout and the grace. The delivery is that of the entry,
-- at one attempt more than the server had counted, and may wait for its timeout.
pub record IsTakenOver {Acker : Type 0} (client : RedisClient) (grace_ms : ℕ) (consumer : Text)
    (start end : client.Server) (held : Held Acker) : Type 0 where
  pub queue : Text
  pub floor : ℕ
  pub now : ℕ
  pub candidate : Pending
  pub front : List Pending
  pub behind : List Pending
  pub entry : StreamId
  pub entries : List StreamId
  pub won : Text
  pub others : List Text
  pub listing : client.Server
  pub looking : client.Server
  pub starts : Passes client start listing
  pub listed :
      (client.pending (stream_key queue) floor 64 listing).0 ≡ ok (front ++ candidate ∷ behind)
  pub goes_on : Passes client (client.pending (stream_key queue) floor 64 listing).1 looking
  pub found : (client.range_one (stream_key queue) candidate.id looking).0 ≡ ok (entry ∷ entries)
  pub overdue :
      is_overdue candidate.last_delivered_ms (u64 (entry_timeout client entry + grace_ms)) ≡ true
  pub given :
      (client.claim_idle
        (stream_key queue)
        consumer
        (u64 (entry_timeout client entry + grace_ms))
        candidate.id
        (client.range_one (stream_key queue) candidate.id looking).1).0
      ≡ ok (won ∷ others)
  pub ends :
      Passes client
        (client.claim_idle
          (stream_key queue)
          consumer
          (u64 (entry_timeout client entry + grace_ms))
          candidate.id
          (client.range_one (stream_key queue) candidate.id looking).1).1
        end
  pub waits : held ≡ (
    delivery_of client queue candidate.id (u32 (candidate.times_delivered + 1)) entry,
    now,
    max (entry_timeout client entry) 1,
  )

module _ {client : RedisClient} {Acker : Type 0} (grace_ms : ℕ) where
  -- What was so in a part of a sweep is so in the whole of it.
  pub widen :
      (consumer : Text) (start early late end : client.Server) (held : List (Held Acker))
      → Passes client start early
      → Passes client late end
      → All (IsTakenOver client grace_ms consumer early late) held
      → All (IsTakenOver client grace_ms consumer start end) held
  widen consumer start early late end [] before after_ all = tt
  widen consumer start early late end (h ∷ held) before after_ (t, all) = (
    record {
      queue = t.queue;
      floor = t.floor;
      now = t.now;
      candidate = t.candidate;
      front = t.front;
      behind = t.behind;
      entry = t.entry;
      entries = t.entries;
      won = t.won;
      others = t.others;
      listing = t.listing;
      looking = t.looking;
      starts = Passes-trans client start early t.listing before t.starts;
      listed = t.listed;
      goes_on = t.goes_on;
      found = t.found;
      overdue = t.overdue;
      given = t.given;
      ends = Passes-trans client _ late end t.ends after_;
      waits = t.waits;
    },
    widen consumer start early late end held before after_ all,
  )

  -- The server alone has changed, by what a sweep asks of it.
  abbrev pub Same : RedisBroker client Acker → RedisBroker client Acker → Type 0
  Same b c = (c.claimed ≡ b.claimed) × (c.consumer ≡ b.consumer) × Passes client b.server c.server

  -- What was taken over since `start` stands at the end of the buffer, and is counted, unless a
  -- command fails.
  pub record Adds (start : client.Server) (b : RedisBroker client Acker)
      (r : Res ℕ × RedisBroker client Acker) : Type 0 where
    pub held : List (Held Acker)
    pub buffered : r.1.claimed ≡ b.claimed ++ held
    pub consumer_path : r.1.consumer ≡ b.consumer
    pub passes : Passes client b.server r.1.server
    pub taken : All (IsTakenOver client grace_ms b.consumer start r.1.server) held
    pub fate : (r.0 ≡ err) ⊎ (r.0 ≡ ok (length held))

  pub Adds-nothing :
      (start : client.Server) (b : RedisBroker client Acker) (r : Res ℕ × RedisBroker client Acker)
      → Same b r.1
      → (r.0 ≡ err) ⊎ (r.0 ≡ ok 0)
      → Adds start b r
  Adds-nothing start b r (claimed, consumer, passes) fate = record {
    held = [];
    buffered = claimed ∙ sym (append-nil b.claimed);
    consumer_path = consumer;
    passes = passes;
    taken = tt;
    fate = fate;
  }

  pub Adds-after {ℓ} :
      {A : Type ℓ} (start : client.Server) (b : RedisBroker client Acker)
      (r : Res A × RedisBroker client Acker) (f : A → Run client Acker ℕ)
      → Same b r.1
      → ((a : A) → r.0 ≡ ok a → Adds start b (f a r.1))
      → Adds start b (after r f)
  Adds-after start b (ok a, c) f same each = each a refl
  Adds-after start b (err, c) f same each = Adds-nothing start b (err, c) same (inl refl)

  -- What was taken over first, and what the rest of the sweep took over behind it.
  joined :
      (start : client.Server) (n : ℕ) (b c d : RedisBroker client Acker) (answer : Res ℕ)
      → Adds start b (ok n, c)
      → Adds start c (answer, d)
      → (total : Res ℕ)
      → ((held more : List (Held Acker))
          → n ≡ length held
          → (answer ≡ err) ⊎ (answer ≡ ok (length more))
          → (total ≡ err) ⊎ (total ≡ ok (length (held ++ more))))
      → Adds start b (total, d)
  joined start n b c d answer first rest total count = record {
    held = first.held ++ rest.held;
    buffered =
        rest.buffered
        ∙ ap (λ xs. xs ++ rest.held) first.buffered
        ∙ append_assoc b.claimed first.held rest.held;
    consumer_path = rest.consumer_path ∙ first.consumer_path;
    passes = Passes-trans client b.server c.server d.server first.passes rest.passes;
    taken =
        All-append (IsTakenOver client grace_ms b.consumer start d.server) first.held rest.held
          (widen b.consumer start start c.server d.server first.held unasked rest.passes
            first.taken)
          (subst (λ consumer. All (IsTakenOver client grace_ms consumer start d.server) rest.held)
            first.consumer_path rest.taken);
    fate = count first.held rest.held (ground (arith, first.fate)) rest.fate;
  }

  sum-Adds :
      (start : client.Server) (n : ℕ) (b c : RedisBroker client Acker)
      (r : Res ℕ × RedisBroker client Acker)
      → Adds start b (ok n, c)
      → Adds start c r
      → Adds start b (after r (λ others. done (n + others)))
  sum-Adds start n b c (err, d) first rest =
      joined start n b c d err first rest err (λ held more count fate. inl refl)
  sum-Adds start n b c (ok m, d) first rest =
      joined start n b c d (ok m) first rest (ok (n + m))
        (λ held more count fate. inr (ground (arith, count, fate, length-append held more)))

  pub plus-Adds :
      (start : client.Server) (b : RedisBroker client Acker) (r : Res ℕ × RedisBroker client Acker)
      (rest : Run client Acker ℕ)
      → Adds start b r
      → ((c : RedisBroker client Acker) → Passes client b.server c.server → Adds start c (rest c))
      → Adds start b (after r (λ n. rest >>= λ others. done (n + others)))
  plus-Adds start b (err, c) rest adds each = adds
  plus-Adds start b (ok n, c) rest adds each =
      sum-Adds start n b c (rest c) adds (each c adds.passes)

  pub Adds-from :
      (start early : client.Server) (b c : RedisBroker client Acker)
      (r : Res ℕ × RedisBroker client Acker)
      → Same b c
      → Passes client start early
      → Adds early c r
      → Adds start b r
  Adds-from start early b c r (claimed, consumer, passes) before adds = record {
    held = adds.held;
    buffered = adds.buffered ∙ ap (λ xs. xs ++ adds.held) claimed;
    consumer_path = adds.consumer_path ∙ consumer;
    passes = Passes-trans client b.server c.server r.1.server passes adds.passes;
    taken =
        subst (λ name. All (IsTakenOver client grace_ms name start r.1.server) adds.held) consumer
          (widen c.consumer start early r.1.server r.1.server adds.held before unasked adds.taken);
    fate = adds.fate;
  }
