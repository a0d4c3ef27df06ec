-- ===== src/Supervisor/Examples/Balance.antt =====
-- A test of the balance of a service: a child with a job in flight is ready for more.
use tarsk.Base.{
  Bool, [], arith, contains, false, length, nat_eq, none, refl, some, text, true, ◌+◌, ◌∷◌, ◌≡◌,
}
use tarsk.Broker.{Delivery, Receipt, redis}
use tarsk.Supervisor.{BrokerApi, Shared}
use tarsk.Wire.{MessagePack, array_of, string}
use tarsk.Base.Dict.{Distinct, insert, lookup, remove}
use tarsk.Base.Fixed.{thousandths}
use tarsk.Supervisor.Checking.{Exit, Serving, leaves}
use tarsk.Supervisor.Dispatch.{Moment, claim_turn, fill, fill_empty, next_job_turn, place}
use tarsk.Supervisor.Gates.{admit, rate_gate, revoked_gate, slot_gate, stale_gate}
use tarsk.Supervisor.Ledger.{held, queued_up, settled}
use tarsk.Supervisor.Loop.{Event, received, serve}
use tarsk.Supervisor.Settle.{adopt, try_job}
use tarsk.Supervisor.Examples.Data.{embed_job, knows, shared_over, small_cfg, small_pace, steady}
use tarsk.Supervisor.Ledger.Filling.{IsApart, IsCalm, IsRemote, numbers}
use tarsk.Supervisor.Ledger.Serving.{all_numbers}
use tarsk.Supervisor.Ledger.Taking.{taken}
use tarsk.Supervisor.Ledger.Whole.{serve_balances}
use tarsk.Supervisor.Settle.Exactly.{Oracle, logging}

abbrev redis_delivery : Delivery (Unit {0})
redis_delivery = record {
  id = text "j2";
  chain = [];
  meta = [];
  name = text "embed";
  payload = [];
  attempt = 1;
  receipt = redis (text "default") (text "5-1");
  ready_at_ms = 1000;
  expires_ms = 0;
}

-- A broker that has a delivery for every claim.
abbrev full_queue : Oracle (Unit {0})
full_queue = record steady { found = λ log. some redis_delivery }

abbrev full_api : BrokerApi thousandths
full_api = logging thousandths (Unit {0}) full_queue

abbrev full_shared : Shared full_api
full_shared = shared_over full_api []

abbrev full_serving : Serving full_api
full_serving = record {
  child = record {
    inflight = (3, embed_job) ∷ [];
    free = 1;
    allowed = 4;
    tasks_done = 0;
    to_settle = [];
    frames = [];
  };
  pid = 100;
  baseline = 1000;
  started = 0;
  spare = false;
  spare_at = none;
  arming = false;
}

abbrev full_moment : Moment full_api
full_moment = record {
  before = λ s. s;
  claiming = λ s. s;
  parked = λ s. s;
  now = 10;
  wall_ms = 2000;
  settle_open = true;
  child_open = true;
}

abbrev ready_event : Event full_api
ready_event =
    received
      (record {
        now = 20;
        rss_now = none;
        settle_open = true;
        spawned = true;
        moments = full_moment ∷ full_moment ∷ full_moment ∷ [];
      })
      (some [])

abbrev says_ready : MessagePack
says_ready = knows (array_of (string (text "Ready") ∷ []))

abbrev every_receipt : Receipt (Unit {0}) → Bool
every_receipt r = true

full_queue-IsRemote : IsRemote full_queue
full_queue-IsRemote log d h = ground (arith, h)

still-IsApart : IsApart thousandths full_queue every_receipt 0 (λ s. s)
still-IsApart t = (refl, refl, omega arith, omega arith)

full_moment-IsCalm : IsCalm thousandths full_queue every_receipt 0 full_moment
full_moment-IsCalm = (refl, still-IsApart, still-IsApart, still-IsApart)

filling : Unit {0}
unfolding fill claim_turn next_job_turn try_job adopt place admit stale_gate rate_gate slot_gate
    revoked_gate lookup contains insert remove
filling = tt

-- The child takes the delivery that it has room for.
fill-full_moment :
    let (filled, after, kept) =
      fill {api = full_api} small_pace
        (full_moment ∷ full_moment ∷ [])
        fill_empty
        full_shared
        full_serving.child in
    length kept.inflight ≡ 2
unfolding filling
fill-full_moment = refl

serve_balances_example :
    let (turn, after, kept) =
      serve {api = full_api} says_ready small_cfg (ready_event ∷ []) 30 full_shared full_serving in
    (settled every_receipt after.store
        + held every_receipt kept.child.inflight
        + queued_up every_receipt kept.child.to_settle
        + taken full_queue every_receipt full_shared.store
      ≡ settled every_receipt full_shared.store
        + held every_receipt full_serving.child.inflight
        + queued_up every_receipt full_serving.child.to_settle
        + taken full_queue every_receipt after.store)
    × Distinct kept.child.inflight
    × ((exit : Exit) → turn ≡ leaves exit → kept.child.to_settle ≡ [])
unfolding all_numbers numbers lookup
serve_balances_example =
    serve_balances thousandths full_queue says_ready every_receipt 0 small_cfg (ready_event ∷ []) 30
      full_shared full_serving full_queue-IsRemote
      ((refl, (full_moment-IsCalm, (full_moment-IsCalm, (full_moment-IsCalm, tt)))), tt)
      (omega arith, tt) (refl, tt) (omega arith)
