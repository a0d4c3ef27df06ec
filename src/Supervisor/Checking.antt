-- ===== src/Supervisor/Checking.antt =====
-- What a slot knows of the child it serves, and how it reads the pressure on it (`check!` of
-- `serve_inner`, lib.rs).
use tarsk.Base.{
  Bool, List, Option, Text, [], false, if◌then◌else◌, leb, length, max, none, not, some, text, true,
  ℕ, ◌&&◌, ◌*◌, ◌+◌, ◌-◌, ◌∷◌,
}
use tarsk.Broker.{from_millis, u64}
use tarsk.Ceiling.{
  Limits, Pressure, Reason, growth_estimate, observe_growth, pressure, should_warm, slot_budget,
}
use tarsk.Metrics.{set_child_rss}
use tarsk.Supervisor.{BrokerApi, Shared}
use tarsk.Base.Dict.{is_some}
use tarsk.Base.Float.{Float}
use tarsk.Supervisor.Dispatch.{Child, Moment}
use tarsk.Supervisor.Gates.{Pace}

pub data Exit : Type 0 where
  finished died over_hard_limit : Exit
  recycle : Reason → Exit

-- What a turn of the loop ends in. `parked` is a slot that still waits in `fill!`; `panicked` is an
-- index out of range.
pub data Next : Type 0 where
  going parked panicked : Next
  leaves : Exit → Next

-- `limits` and `pace` are the fields of `Cfg` that those records name.
pub record Cfg : Type 0 where
  pub app_spec : Text
  pub python : Text
  pub child_argv : List Text
  pub socket : Text
  pub limits : Limits
  pub pace : Pace
  pub poll : ℕ
  pub drain_timeout : ℕ
  pub term_grace : ℕ
  pub connect_timeout : ℕ
  pub spawn_cap : ℕ
  pub spare_idle : ℕ
  pub metrics_addr : Option Text
  pub max_dead : ℕ
  pub slots : ℕ

-- `impl Default for Cfg`
abbrev pub default_cfg : Cfg
default_cfg = record {
  app_spec = [];
  python = text "python3";
  child_argv = text "-m" ∷ text "tarsk._child" ∷ [];
  socket = [];
  limits = record {
    max_rss = 0;
    max_tasks = 0;
    max_lifetime = none;
    warm_multiple = 3;
    hard_max_rss = 0;
  };
  pace = record { lease_grace = 30000000000; claim_block = 250000000 };
  poll = 100000000;
  drain_timeout = 30000000000;
  term_grace = 5000000000;
  connect_timeout = 30000000000;
  spawn_cap = 9223372036854775807;
  spare_idle = 30000000000;
  metrics_addr = none;
  max_dead = 1000;
  slots = 1;
}

unfoldable pub build_cfg :
    (fl : Float)
    → (app_spec python socket : Text) → (children max_rss max_tasks : ℕ)
    → (max_lifetime lease_grace : fl.F64) → Option Text
    → (hard_max_rss spawn_slack slots max_dead : ℕ) → Cfg
build_cfg fl app_spec python socket children max_rss max_tasks max_lifetime lease_grace metrics_addr
      hard_max_rss spawn_slack slots max_dead =
    let zero_f64 = fl.of_ℕ 0 in
    record default_cfg {
      app_spec = app_spec;
      python = python;
      socket = socket;
      limits = record default_cfg.limits {
        max_rss = max_rss;
        max_tasks = max_tasks;
        max_lifetime =
            if fl.less zero_f64 max_lifetime then some (fl.from_secs_f64 max_lifetime) else none;
        hard_max_rss = hard_max_rss;
      };
      pace = record default_cfg.pace {
        lease_grace =
            fl.from_secs_f64 (if fl.less zero_f64 lease_grace then lease_grace else zero_f64);
      };
      spawn_cap = u64 (8 * children + spawn_slack + 8);
      metrics_addr = metrics_addr;
      slots = max slots 1;
      max_dead = max_dead;
    }

-- `spare` stands for the handle of the replacement.
pub record Serving {fl : Float} (api : BrokerApi fl) : Type 0 where
  pub child : Child api
  pub pid : ℕ
  pub baseline : ℕ
  pub started : ℕ
  pub spare : Bool
  pub spare_at : Option ℕ
  pub arming : Bool

-- What a turn meets: the clock, what the system says of the child's memory, whether the settle
-- task still takes outcomes, whether a spawn that is waited for succeeds, and the turns of `fill!`.
pub record Meets {fl : Float} (api : BrokerApi fl) : Type 0 where
  pub now : ℕ
  pub rss_now : Option ℕ
  pub settle_open : Bool
  pub spawned : Bool
  pub moments : List (Moment api)

abbrev pub at_least : Option ℕ → ℕ → Bool
at_least none limit = false
at_least (some bytes) limit = leb limit bytes

module _ {fl : Float} {api : BrokerApi fl} where
  abbrev pub on_child : (Child api → Child api) → Serving api → Serving api
  on_child f v = record v { child = f v.child }

  abbrev pub learn_rss : Option ℕ → Serving api → Shared api → Shared api
  learn_rss none v s = s
  learn_rss (some bytes) v s = record s {
    metrics = set_child_rss v.pid bytes s.metrics;
    counters = record s.counters { child_rss_peak = max s.counters.child_rss_peak bytes };
    learned =
        observe_growth bytes v.baseline v.child.tasks_done (length v.child.inflight) s.learned;
  }

  abbrev pub allow : Option ℕ → Limits → Shared api → Serving api → Serving api
  allow none limits s v = v
  allow (some bytes) limits s v =
      on_child
        (λ child. record child {
          allowed = slot_budget bytes (growth_estimate s.learned) limits.max_rss;
        })
        v

  -- `check!`
  unfoldable pub check :
      Cfg → Meets api → Shared api → Serving api → Pressure fl × Shared api × Serving api
  check cfg w s v =
      let elapsed = w.now - v.started in
      let reading =
        pressure fl w.rss_now v.pid v.child.tasks_done elapsed cfg.limits
          (growth_estimate s.learned) in
      let learned_s = learn_rss reading.rss v s in
      let budgeted = allow reading.rss cfg.limits learned_s v in
      let warms =
        not v.spare
        && not v.arming
        && not (is_some reading.trigger)
        && should_warm fl reading elapsed (from_millis learned_s.spawn_ms) cfg.limits in
      (reading, learned_s, if warms then record budgeted { arming = true } else budgeted)

  -- `spare = spare_rx.recv().await.flatten()`, where a replacement is starting.
  abbrev pub await_spare : Meets api → Serving api → Serving api
  await_spare w v = if not v.spare && v.arming then record v { spare = w.spawned } else v
