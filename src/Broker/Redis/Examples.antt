-- ===== src/Broker/Redis/Examples.antt =====
-- The theorems on RedisBroker at concrete entries.
use tarsk.Base.{[], arith, leb, min, none, ok, some, text, true, ℕ, ◌+◌, ◌∷◌, ◌≡◌}
use tarsk.Base.Decimal.{parse_u64}
use tarsk.Broker.Redis.{Held, RedisBroker, RedisClient, StreamId, delivery_of}
use tarsk.Broker.Redis.Buffer.{Given, next_held-Given}
use tarsk.Broker.Redis.Claim.{hand_out, next_held}
use tarsk.Broker.Redis.Overdue.{idle_for-is_overdue, reclaim_expired-Adds}
use tarsk.Broker.Redis.Reading.{HandedOut, all_of, hand_out-all}
use tarsk.Broker.Redis.Settling.{idle_for, is_overdue, reclaim_expired}
use tarsk.Broker.Redis.Sweeping.{Adds}

abbrev one_entry : StreamId
one_entry = record {
  id = text "1700000000000-0";
  map = (text "n", text "add") ∷ (text "p", text "two") ∷ (text "t", text "1000") ∷ [];
  delivered_count = none;
}

abbrev other_entry : StreamId
other_entry = record {
  id = text "1700000000000-1";
  map = (text "n", text "add") ∷ (text "t", text "2000") ∷ [];
  delivered_count = some 2;
}

-- A server that has one entry pending, and gives it to whoever claims it; the state is not read.
abbrev one_pending : RedisClient
one_pending = record {
  Server = Unit {0};
  as_string = λ v. some v;
  as_number = parse_u64;
  add = λ key fields s. (ok tt, s);
  add_delayed = λ key member due fields s. (ok tt, s);
  promote = λ delayed stream now batch s. (ok 0, s);
  read_group = λ consumer batch block keys s. (ok none, s);
  range_one = λ key id s. (ok (one_entry ∷ []), s);
  pending = λ key idle count s. (
    ok (
        record {
          id = one_entry.id;
          last_delivered_ms = 6500;
          times_delivered = 1;
          consumer = text "tarsk-8";
        }
        ∷ []),
    s,
  );
  claim_idle = λ key consumer min_idle id s. (ok (id ∷ []), s);
  set_idle = λ key consumer id idle s. (ok tt, s);
  ack_delete = λ key id s. (ok tt, s);
  bury_entry = λ grave key id max_length fields s. (ok tt, s);
  pending_all = λ key count s. (ok [], s);
  oldest = λ key count s. (ok (one_entry ∷ []), s);
  scored = λ key last s. (ok [], s);
  name_and_id = λ key s. (ok (none, none), s);
  newest = λ key count s. (ok [], s);
  range_all = λ key s. (ok [], s);
  add_delete = λ key fields grave id s. (ok tt, s);
  stream_length = λ key s. (ok 0, s);
  delete_key = λ key s. (ok tt, s);
  delete_entries = λ key ids s. (ok 0, s);
  pending_count = λ key s. (ok 1, s);
  counts = λ stream grave delayed s. (ok (1, 0, 0), s);
  set_px = λ key value ttl_ms s. (ok tt, s);
  set_if_absent = λ key value ttl_ms s. (ok true, s);
  get_value = λ key s. (ok none, s);
  add_scored = λ key score member s. (ok tt, s);
  remove_member = λ key member s. (ok tt, s);
  live_members = λ key now s. (ok [], s);
}

abbrev redis_broker : RedisBroker one_pending (Unit {0})
redis_broker = record {
  server = tt;
  consumer = text "tarsk-7";
  queues = text "default" ∷ [];
  min_timeout_ms = 1000;
  grace_ms = 0;
  next_delayed = 0;
  claimed = [];
  prefetch = 2;
  prefetch_cap = 4;
}

abbrev waiting : (deadline_ms : ℕ) → Held (Unit {0})
waiting deadline_ms =
    (delivery_of one_pending (text "default") one_entry.id 1 one_entry, 0, deadline_ms)

-- After two seconds the first has outwaited its second, and the second has a second left.
next_held-Given_example :
    Given
      (λ n. 2000000000)
      (waiting 1000 ∷ waiting 3000 ∷ waiting 4000 ∷ [])
      4
      (some (waiting 3000).0, waiting 4000 ∷ [], 2)
unfolding next_held
next_held-Given_example =
    next_held-Given (λ n. 2000000000) (waiting 1000 ∷ waiting 3000 ∷ waiting 4000 ∷ []) 4

hand_out-all_example :
    HandedOut
      (all_of one_pending 5
        (record { key = text "tarsk:default"; ids = one_entry ∷ other_entry ∷ [] } ∷ []))
      redis_broker
      (hand_out 5
        (record { key = text "tarsk:default"; ids = one_entry ∷ other_entry ∷ [] } ∷ [])
        redis_broker)
hand_out-all_example =
    hand_out-all 5 (record { key = text "tarsk:default"; ids = one_entry ∷ other_entry ∷ [] } ∷ [])
      redis_broker

idle_for-is_overdue_example : is_overdue (idle_for 6000 2000 + 2000) 6000 ≡ leb (min 2000 6000) 2000
idle_for-is_overdue_example = idle_for-is_overdue 6000 2000 2000 (omega arith)

reclaim_expired-Adds_example :
    Adds 5000 tt redis_broker (reclaim_expired 5000000000 (λ m n. 7) redis_broker)
reclaim_expired-Adds_example = reclaim_expired-Adds 5000000000 (λ m n. 7) redis_broker
