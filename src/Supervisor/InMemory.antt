-- ===== src/Supervisor/InMemory.antt =====
-- The arms of `impl Broker` (broker.rs) for `Broker::Memory`: the in-memory broker as the broker of
-- a supervisor. A receipt of another broker is an error, and changes nothing.
pub mod Ending
use tarsk.Base.{Res, [], err, ok, true, ℕ, ◌+◌}
use tarsk.Broker.{Receipt, memory}
use tarsk.Supervisor.{BrokerApi}
use tarsk.Base.Float.{Float}
use tarsk.Broker.Local.{LocalCoordination, acquire_slot, claim_tick, release_slot, take_token}
use tarsk.Broker.Memory.{MemoryBroker, claim, push, requeue, revoked, settle, store_result}

-- The broker and the clocks that it reads: the monotonic one, how much later a second reading in
-- the same call is, and the wall clock.
pub record World (fl : Float) : Type 0 where
  pub broker : MemoryBroker fl
  pub now : ℕ
  pub lag : ℕ
  pub wall_ms : ℕ

abbrev pub of_memory {ℓ} : {Acker : Type 0} {A : Type ℓ} → Receipt Acker → A → (ℕ → A) → A
of_memory (memory id) other f = f id
of_memory _ other f = other

module _ {fl : Float} where
  abbrev pub on_broker : (MemoryBroker fl → MemoryBroker fl) → World fl → World fl
  on_broker f w = record w { broker = f w.broker }

  abbrev pub on_local :
      (LocalCoordination fl → LocalCoordination fl) → MemoryBroker fl → MemoryBroker fl
  on_local f b = record b { local = f b.local }

  unfoldable pub settle_receipt :
      {Acker : Type 0} → Receipt Acker → World fl → Res (Unit {0}) × World fl
  settle_receipt receipt w = of_memory receipt (err, w) (λ id. (ok tt, on_broker (settle id) w))

  unfoldable pub retry_receipt :
      {Acker : Type 0} → Receipt Acker → (delay : ℕ) → World fl → Res (Unit {0}) × World fl
  retry_receipt receipt delay w =
      of_memory receipt (err, w) (λ id. (ok tt, on_broker (requeue id delay w.now) w))

abbrev pub memory_api : (fl : Float) → BrokerApi fl
memory_api fl = record {
  Store = World fl;
  Acker = Unit {0};
  drains_when_empty = true;
  set_prefetch_cap = λ children store. store;
  push = λ job delay w. (ok tt, on_broker (push job delay w.now w.wall_ms) w);
  claim = λ grace block w.
      let (b, delivered) = claim (Unit {0}) w.now w.broker in
      (ok delivered, record w { broker = b });
  ack = settle_receipt;
  retry = retry_receipt;
  dead_letter = λ receipt error traceback keep. settle_receipt receipt;
  store_result = λ id blob ttl w. (ok tt, on_broker (store_result id blob ttl w.now) w);
  take_token = λ task rate burst w.
      let (after, wait) = take_token task rate burst w.now (w.now + w.lag) w.broker.local in
      (ok wait, on_broker (on_local (λ c. after)) w);
  acquire_slot = λ task job_id limit lease_ms w.
      let (after, granted) = acquire_slot task job_id limit lease_ms w.now w.broker.local in
      (ok granted, on_broker (on_local (λ c. after)) w);
  release_slot = λ task job_id w. (ok tt, on_broker (on_local (release_slot task job_id)) w);
  claim_tick = λ name minute w.
      let (after, won) = claim_tick name minute w.broker.local in
      (ok won, on_broker (on_local (λ c. after)) w);
  depth = λ w. (ok [], w);
  revoked_all = λ w. let (b, ids) = revoked w.now w.broker in (ok ids, record w { broker = b });
  reclaim_expired = λ grace w. (ok 0, w);
}
