-- ===== src/Supervisor/Examples/Data.antt =====
-- Test data of the supervisor: a broker that is asked, a task, a job and a child.
use tarsk.Base.{[], false, none, some, text, true, ◌∷◌}
use tarsk.Broker.{memory}
use tarsk.Supervisor.{BrokerApi, Job, Outcome, Shared, Spec}
use tarsk.Wire.{MessagePack, Value, policy, string}
use tarsk.Base.Fixed.{thousandths}
use tarsk.Metrics.Histogram.{no_metrics}
use tarsk.Supervisor.Checking.{Cfg, Meets, Serving, default_cfg}
use tarsk.Supervisor.Dispatch.{Child, Moment}
use tarsk.Supervisor.Finishing.{no_counters}
use tarsk.Supervisor.Gates.{Pace}
use tarsk.Supervisor.InMemory.{World, memory_api}
use tarsk.Supervisor.Settle.Exactly.{Oracle, logging}

-- A broker that answers every call, and a MessagePack that knows one value.
abbrev pub steady : Oracle (Unit {0})
steady = record {
  fails = λ log. false;
  found = λ log. none;
  number = λ log. 0;
  granted = λ log. true;
  cancelled = λ log. [];
}

abbrev pub plain_api : BrokerApi thousandths
plain_api = logging thousandths (Unit {0}) steady

abbrev pub knows : Value → MessagePack
knows v = record { write_value = λ w. some []; read_value = λ bytes. some v }

abbrev pub embed_spec : Spec thousandths
embed_spec = record {
  timeout_ms = 1000;
  retries = 1;
  backoff = text "fixed";
  result_ttl_ms = 5000;
  queue = text "default";
  cron = [];
  rate_per_sec = 2000;
  rate_burst = 5;
  expires_ms = 60000;
  max_concurrency = 2;
}

abbrev pub shared_over : (api : BrokerApi thousandths) → api.Store → Shared api
shared_over api store = record {
  store = store;
  results = [];
  total = 1;
  next_task_id = 4;
  done = false;
  registry = some (77, 1);
  specs = (text "embed", embed_spec) ∷ [];
  waiting = 5 ∷ [];
  exits = [];
  fatal = none;
  next_child_id = 2;
  max_dead = 1000;
  revoked = text "gone" ∷ [];
  spawn_ms = 0;
  learned = record { task_growth = 1000; growth_samples = 1 };
  counters = no_counters;
  metrics = no_metrics;
  reasons = [];
}

abbrev pub plain_shared : Shared plain_api
plain_shared = shared_over plain_api []

abbrev pub embed_job : Job (Unit {0})
embed_job = record {
  task_id = 3;
  name = text "embed";
  payload = [];
  attempt = 1;
  id = text "j1";
  receipt = memory 3;
  dispatched = 0;
  ready_at_ms = 1000;
  chain = [];
  meta = [];
  expires_ms = 0;
}

abbrev pub answered_42 : Outcome
answered_42 = record {
  succeeded = true;
  result = text "42";
  error_type = [];
  traceback = [];
  directive = policy;
}

abbrev pub settle_text : MessagePack
settle_text = knows (string [])

abbrev pub small_pace : Pace
small_pace = record { lease_grace = 5000000000; claim_block = 1000000000 }

abbrev pub quiet_moment : Moment plain_api
quiet_moment = record {
  before = λ s. s;
  claiming = λ s. s;
  parked = λ s. s;
  now = 10;
  wall_ms = 2000;
  settle_open = true;
  child_open = true;
}

abbrev pub idle_child : Child plain_api
idle_child = record {
  inflight = [];
  free = 2;
  allowed = 4;
  tasks_done = 0;
  to_settle = [];
  frames = [];
}

abbrev pub busy_serving : Serving plain_api
busy_serving = record {
  child = record idle_child { inflight = (3, embed_job) ∷ [] };
  pid = 100;
  baseline = 1000;
  started = 0;
  spare = false;
  spare_at = none;
  arming = false;
}

abbrev pub over_limit : Meets plain_api
over_limit = record {
  now = 20;
  rss_now = some 9000;
  settle_open = true;
  spawned = true;
  moments = [];
}

abbrev pub small_cfg : Cfg
small_cfg = record default_cfg {
  limits = record {
    max_rss = 5000;
    max_tasks = 0;
    max_lifetime = none;
    warm_multiple = 2;
    hard_max_rss = 8000;
  };
  pace = small_pace;
  spawn_cap = 10;
  spare_idle = 60000000000;
}

abbrev pub world : World thousandths
world = record {
  broker = record {
    ready = [];
    jobs =
        (
          3,
          record {
            job = record {
              id = text "j1";
              queue = text "default";
              name = text "embed";
              payload = [];
              timeout_ms = 1000;
              meta = [];
              expires_ms = 0;
              chain = [];
            };
            attempts = 1;
            ready_ms = 1000;
          },
        )
        ∷ [];
    next_id = 4;
    results = [];
    revoked_until = [];
    local = record { ticks = []; buckets = []; slots = [] };
  };
  now = 10;
  lag = 0;
  wall_ms = 2000;
}

abbrev pub in_memory : Shared (memory_api thousandths)
in_memory = shared_over (memory_api thousandths) world
