-- ===== src/Supervisor/Slot.antt =====
-- One slot of the supervisor (`slot`, with `spawn_child`, `drain` and `reap`, lib.rs): it starts a
-- child, serves it, and replaces it when it is retired, killed or dies.
pub mod Lives
use tarsk.Base.{
  List, Option, Text, [], false, if◌then◌else◌, keep, leb, ltb, max, nat_eq, none, not, some, text,
  ℕ, ◌&&◌, ◌++◌, ◌+◌, ◌/◌, ◌==◌, ◌∷◌,
}
use tarsk.Broker.{u64}
use tarsk.Ceiling.{Reason, hard_max_rss_reason, reason_eq, usize_max}
use tarsk.Supervisor.{BrokerApi, Job, Outcome, Shared, abandon, count, nack}
use tarsk.Wire.{MessagePack}
use tarsk.Base.Decimal.{decimal}
use tarsk.Base.Dict.{Dict, insert, lookup, or_else}
use tarsk.Base.Float.{Float}
use tarsk.Base.Int.{int_eq, pos, ℤ}
use tarsk.Supervisor.Checking.{
  Cfg, Exit, Serving, died, finished, on_child, over_hard_limit, recycle,
}
use tarsk.Supervisor.Draining.{Ending, drain, push_exit, reap}
use tarsk.Supervisor.Settle.{fail_job}
use tarsk.Supervisor.Ticking.{decimal_int}

-- How the launch of a child goes: the process does not start, it connects, it is refused or does
-- not connect in time, or it exits first.
pub data Launch : Type 0 where
  not_started refused : Launch
  connected : (pid : ℕ) → (rss : Option ℕ) → (launched_ms started : ℕ) → Launch
  exited : (code : ℤ) → Launch

abbrev pub exit_startup_failed : ℤ
exit_startup_failed = pos 78

abbrev pub hook_message : ℤ → Text
hook_message code =
    text "a worker's on_start hook raised; its traceback is on the worker's stderr (exit "
    ++ decimal_int code
    ++ text ")"

abbrev pub megabytes : ℕ → ℕ
megabytes bytes = bytes / 1048576

abbrev pub baseline_message : (bytes max_rss : ℕ) → (app_spec : Text) → Text
baseline_message bytes max_rss app_spec =
    text "child baseline is "
    ++ decimal (megabytes bytes)
    ++ text "MB but max_rss is "
    ++ decimal (megabytes max_rss)
    ++ text "MB: importing "
    ++ app_spec
    ++ text " already clears the ceiling before any task runs. "
    ++ text "Raise the ceiling above the interpreter plus your task modules."

abbrev pub add_one : Reason → Dict Reason ℕ → Dict Reason ℕ
add_one why reasons =
    insert ⦃e = reason_eq⦄ why (u64 (or_else 0 (lookup ⦃e = reason_eq⦄ why reasons) + 1)) reasons

module _ {fl : Float} {api : BrokerApi fl} where
  abbrev pub forget_waiting : ℕ → Shared api → Shared api
  forget_waiting child_id s = record s { waiting = keep (λ id. not (id == child_id)) s.waiting }

  abbrev pub new_child : (pid baseline started : ℕ) → Serving api
  new_child pid baseline started = record {
    child = record {
      inflight = [];
      free = 0;
      allowed = usize_max;
      tasks_done = 0;
      to_settle = [];
      frames = [];
    };
    pid = pid;
    baseline = baseline;
    started = started;
    spare = false;
    spare_at = none;
    arming = false;
  }

  abbrev pub registered_child :
      Cfg
      → (pid : ℕ) → (rss : Option ℕ) → (launched_ms started : ℕ) → Shared api
      → Option (Serving api) × Shared api
  registered_child cfg pid rss launched_ms started s =
      let measured = if ltb 0 cfg.limits.max_rss && not (pid == 0) then rss else none in
      let ready = record s { spawn_ms = u64 (max launched_ms 1) } in
      elim measured [
        | none ↦ (some (new_child pid 0 started), ready)
        | some bytes ↦
            if leb cfg.limits.max_rss bytes
            then (none, abandon (baseline_message bytes cfg.limits.max_rss cfg.app_spec) s)
            else (some (new_child pid bytes started), ready)
      ]

  abbrev pub counted_spawn : Shared api → Shared api
  counted_spawn = count (λ c. record c { spawns = u64 (c.spawns + 1) })

  -- The slot waits in `conns` for the child that it is about to launch.
  abbrev pub waiting_child : Shared api → Shared api
  waiting_child s = record (counted_spawn s) {
    next_child_id = u64 (s.next_child_id + 1);
    waiting = s.next_child_id ∷ s.waiting;
  }

  abbrev pub count_crash : Shared api → Shared api
  count_crash = count (λ c. record c { crashes = u64 (c.crashes + 1) })

  abbrev pub count_hard_kill : Shared api → Shared api
  count_hard_kill s = record (count (λ c. record c { hard_killed = u64 (c.hard_killed + 1) }) s) {
    reasons = add_one hard_max_rss_reason s.reasons;
  }

  abbrev pub count_recycle : Reason → Shared api → Shared api
  count_recycle why s = record (count (λ c. record c { recycles = u64 (c.recycles + 1) }) s) {
    reasons = add_one why s.reasons;
  }

  abbrev pub take_jobs : Serving api → Serving api
  take_jobs = on_child (λ child. record child { inflight = [] })

  -- `meets` is what the other tasks do until the launch is decided, the acceptor among them.
  unfoldable pub spawn_child :
      Cfg
      → (meets : Shared api → Shared api) → Launch
      → Shared api
      → Option (Serving api) × Shared api
  spawn_child cfg meets launch s =
      let child_id = s.next_child_id in
      let waits = meets (waiting_child s) in
      if leb cfg.spawn_cap s.counters.spawns then (none, counted_spawn s) else elim launch [
        | not_started ↦ (none, waits)
        | refused ↦ (none, forget_waiting child_id waits)
        | exited code ↦
            let noted = push_exit code waits in
            let judged =
              if code == exit_startup_failed then abandon (hook_message code) noted else noted in
            (none, forget_waiting child_id judged)
        | connected pid rss launched_ms started ↦
            registered_child cfg pid rss launched_ms started waits
      ]

-- What a slot meets when its child is given up: how the processes of the child and of an unused
-- replacement end, what the replacement sends until then, and how a launch would go.
pub record Leaving {fl : Float} (api : BrokerApi fl) : Type 0 where
  pub ending : Ending
  pub frames : List (ℕ × Option Text)
  pub spare_ending : Ending
  pub spare_frames : List (ℕ × Option Text)
  pub meets : Shared api → Shared api
  pub launch : Launch

-- What `slot` does next: it returns, or serves a child, and beside it may leave an old child to be
-- drained.
pub record Turned {fl : Float} (api : BrokerApi fl) : Type 0 where
  pub current : Option (Serving api)
  pub draining : Option (Serving api)
  pub shared : Shared api

abbrev pub hard_limit_outcome : {Acker : Type 0} → Cfg → Job Acker → Outcome
hard_limit_outcome cfg job = nack (text "HardMemoryLimit") (
    job.name
    ++ text " was killed at the hard memory ceiling of "
    ++ decimal (megabytes cfg.limits.hard_max_rss)
    ++ text " MB")

module _ {fl : Float} {api : BrokerApi fl} (pack : MessagePack) where
  abbrev pub drain_spare : Leaving api → Option (Serving api) → Shared api → Shared api
  drain_spare w none s = s
  drain_spare w (some unused) s = (drain pack w.spare_ending w.spare_frames unused s).1

  abbrev pub returns : Shared api → Turned api
  returns s = record { current = none; draining = none; shared = s }

  -- `current = match spare { … }`, after a child that is gone.
  abbrev pub replaced : Cfg → Leaving api → Option (Serving api) → Shared api → Turned api
  replaced cfg w (some ready) s = record { current = some ready; draining = none; shared = s }
  replaced cfg w none s =
      let (spawned, after) = spawn_child cfg w.meets w.launch s in
      record { current = spawned; draining = none; shared = after }

  abbrev pub replaced_unless_done :
      Cfg → Leaving api → Option (Serving api) → Shared api → Turned api
  replaced_unless_done cfg w spare s =
      if s.done then returns (drain_spare w spare s) else replaced cfg w spare s

  unfoldable pub fail_killed : Cfg → Dict ℕ (Job api.Acker) → Shared api → Shared api
  fail_killed cfg [] s = s
  fail_killed cfg ((task_id, job) ∷ rest) s =
      fail_killed cfg rest (fail_job pack job (hard_limit_outcome cfg job) s)

  -- The arms of `match exit`.
  unfoldable pub on_exit :
      Cfg → Leaving api → Exit → Option (Serving api) → Serving api → Shared api → Turned api
  on_exit cfg w finished spare v s = returns (drain_spare w spare (reap pack w.ending v s))
  on_exit cfg w over_hard_limit spare v s =
      replaced_unless_done cfg w spare
        (fail_killed cfg v.child.inflight (reap pack w.ending (take_jobs v) (count_hard_kill s)))
  on_exit cfg w died spare v s =
      replaced_unless_done cfg w spare (reap pack w.ending v (count_crash s))
  on_exit cfg w (recycle why) spare v s = elim spare [
    | some ready ↦ record {
      current = some ready;
      draining = some v;
      shared = count (λ c. record c { prewarmed = u64 (c.prewarmed + 1) }) (count_recycle why s);
    }
    | none ↦
        let (spawned, after) = spawn_child cfg w.meets w.launch (count_recycle why s) in
        elim spawned [
          | some ready ↦ record { current = some ready; draining = some v; shared = after }
          | none ↦ returns (drain pack w.ending w.frames v after).1
        ]
  ]
