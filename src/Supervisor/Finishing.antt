-- ===== src/Supervisor/Finishing.antt =====
-- The start and the end of `supervise_until` (lib.rs): what is shared at first, the outcomes of the
-- jobs that no child took, and the report.
pub mod Answers
use tarsk.Base.{
  Bool, List, Option, Res, Text, [], err, if◌then◌else◌, leb, nat_eq, none, not, ok, some, suc,
  text, text_eq, zero, ℕ, ◌&&◌, ◌++◌, ◌==◌, ◌∷◌,
}
use tarsk.Ceiling.{Reason, reason_text}
use tarsk.Supervisor.{BrokerApi, Counters, Outcome, Shared, batch, nack, record_outcome}
use tarsk.Base.Dict.{Dict, contains_key, insert}
use tarsk.Base.Float.{Float}
use tarsk.Base.Int.{ℤ}
use tarsk.Metrics.Histogram.{no_metrics}
use tarsk.Supervisor.Checking.{Cfg}

abbrev pub no_counters : Counters
no_counters = record {
  rejected = 0;
  spawns = 0;
  recycles = 0;
  prewarmed = 0;
  wasted_spares = 0;
  crashes = 0;
  kills = 0;
  hard_killed = 0;
  retried = 0;
  rate_limited = 0;
  expired = 0;
  chained = 0;
  at_capacity = 0;
  child_rss_peak = 0;
  dead_lettered = 0;
  cron_fired = 0;
  broker_errors = 0;
}

unfoldable pub counter_list : Counters → List (Text × ℕ)
counter_list c =
    (text "children_rejected", c.rejected)
    ∷ (text "children_spawned", c.spawns)
    ∷ (text "children_recycled", c.recycles)
    ∷ (text "children_recycled_prewarmed", c.prewarmed)
    ∷ (text "spares_wasted", c.wasted_spares)
    ∷ (text "children_crashed", c.crashes)
    ∷ (text "children_killed", c.kills)
    ∷ (text "children_hard_killed", c.hard_killed)
    ∷ (text "task_retries", c.retried)
    ∷ (text "tasks_rate_limited", c.rate_limited)
    ∷ (text "tasks_expired", c.expired)
    ∷ (text "chain_steps_queued", c.chained)
    ∷ (text "tasks_at_capacity", c.at_capacity)
    ∷ (text "child_rss_peak", c.child_rss_peak)
    ∷ (text "tasks_dead_lettered", c.dead_lettered)
    ∷ (text "cron_fired", c.cron_fired)
    ∷ (text "broker_errors", c.broker_errors)
    ∷ []

abbrev pub no_worker : Outcome
no_worker = nack (text "NoWorker") (text "every child slot gave up")

-- `sort_by_key` on the number of the task.
unfoldable pub insert_sorted {ℓ} : {A : Type ℓ} → ℕ → A → Dict ℕ A → Dict ℕ A
insert_sorted k v [] = (k, v) ∷ []
insert_sorted k v ((j, w) ∷ m) =
    let rest = insert_sorted k v m in if leb k j then (k, v) ∷ (j, w) ∷ m else (j, w) ∷ rest

unfoldable pub sort_by_key {ℓ} : {A : Type ℓ} → Dict ℕ A → Dict ℕ A
sort_by_key [] = []
sort_by_key ((k, v) ∷ m) = insert_sorted k v (sort_by_key m)

abbrev pub reason_rows : Dict Reason ℕ → Dict Text ℕ → Dict Text ℕ
reason_rows [] stats = stats
reason_rows ((reason, n) ∷ rest) stats =
    reason_rows rest (insert (text "recycle_" ++ reason_text reason) n stats)

unfoldable pub collect_stats : List (Text × ℕ) → Dict Text ℕ → Dict Text ℕ
collect_stats [] stats = stats
collect_stats ((name, value) ∷ rest) stats = collect_stats rest (insert name value stats)

pub record Report : Type 0 where
  pub outcomes : Dict ℕ Outcome
  pub stats : Dict Text ℕ
  pub exits : List ℤ
  pub fatal : Option Text

abbrev pub empty_report : Report
empty_report = record { outcomes = []; stats = []; exits = []; fatal = none }

module _ {fl : Float} {api : BrokerApi fl} where
  abbrev pub new_shared : api.Store → (total : ℕ) → (batch : Bool) → Shared api
  new_shared store total batch = record {
    store = store;
    results = [];
    total = total;
    next_task_id = 0;
    done = batch && total == 0;
    registry = none;
    specs = [];
    waiting = [];
    exits = [];
    fatal = none;
    next_child_id = 0;
    max_dead = 0;
    revoked = [];
    spawn_ms = 250;
    learned = record { task_growth = 0; growth_samples = 0 };
    counters = no_counters;
    metrics = no_metrics;
    reasons = [];
  }

  -- The loop over the tasks from `task_id` on, `left` of them.
  unfoldable pub answer_missing : (left task_id : ℕ) → Shared api → Shared api
  answer_missing zero task_id s = s
  answer_missing (suc left) task_id s =
      answer_missing left (suc task_id)
        (if contains_key task_id s.results then s else record_outcome task_id no_worker s)

  unfoldable pub give_up : Shared api → Shared api
  give_up s = if batch s && not s.done then answer_missing s.total 0 s else s

  unfoldable pub stats_of : Shared api → Dict Text ℕ
  unfolding collect_stats
  stats_of s =
      let hash : ℕ = elim s.registry [ none ↦ 0 | some r ↦ r.0 ] in
      let size : ℕ = elim s.registry [ none ↦ 0 | some r ↦ r.1 ] in
      reason_rows s.reasons (
        insert (text "registry_len") size
          (insert (text "registry_hash") hash (collect_stats (counter_list s.counters) [])))

  unfoldable pub report : Shared api → Report
  unfolding sort_by_key
  report s = record {
    outcomes = sort_by_key s.results;
    stats = stats_of s;
    exits = s.exits;
    fatal = s.fatal;
  }

  -- `runs` is what the tasks do until the last slot returns; `bound` is false where the socket
  -- cannot be bound.
  unfoldable pub supervise_until :
      Cfg
      → (total children : ℕ) → (bound : Bool) → (runs : Shared api → Shared api) → api.Store
      → Res Report
  supervise_until cfg total children bound runs store =
      let shared = new_shared (api.set_prefetch_cap children store) total api.drains_when_empty in
      if api.drains_when_empty && total == 0
      then ok empty_report
      else if not bound
      then err
      else ok (report (give_up (runs (record shared { max_dead = cfg.max_dead }))))
