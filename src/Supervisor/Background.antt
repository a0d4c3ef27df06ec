-- ===== src/Supervisor/Background.antt =====
-- The tasks that `supervise_until` (lib.rs) runs beside the slots of a worker: the one that pulls
-- the cancellations and the depths of the queues, and the one that sweeps expired leases. A function
-- here is one turn of such a loop, with the test of `done` that stands before it.
use tarsk.Base.{Text, err, if◌then◌else◌, is_err, map, ok, ℕ}
use tarsk.Broker.{Depth}
use tarsk.Metrics.{set_depth}
use tarsk.Supervisor.{BrokerApi, Shared, call, count_error}
use tarsk.Base.Dict.{is_some}
use tarsk.Base.Float.{Float}
use tarsk.Supervisor.Checking.{Cfg}
use tarsk.Supervisor.Settle.Exactly.{answer}

abbrev pub depth_row : Depth → Text × (ℕ × ℕ × ℕ × ℕ)
depth_row d = (d.queue, (d.ready, d.in_flight, d.delayed, d.dead))

module _ {fl : Float} {api : BrokerApi fl} where
  unfoldable pub poll_depth : Shared api → Shared api
  unfolding set_depth
  poll_depth s =
      let (answer, after) = call api.depth s in
      elim answer [
        | err ↦ count_error after
        | ok rows ↦ record after { metrics = set_depth (map depth_row rows) after.metrics }
      ]

  unfoldable pub pull_revoked : Shared api → Shared api
  pull_revoked s =
      let (answer, after) = call api.revoked_all s in
      elim answer [ err ↦ count_error after | ok ids ↦ record after { revoked = ids } ]

  -- `wants_depth` is `metrics_addr.is_some()`.
  unfoldable pub revoker_turn : Cfg → Shared api → Shared api
  revoker_turn cfg s =
      if s.done then s else pull_revoked (if is_some cfg.metrics_addr then poll_depth s else s)

  unfoldable pub sweeper_turn : Cfg → Shared api → Shared api
  sweeper_turn cfg s =
      if s.done
      then s
      else let (answer, after) = call (api.reclaim_expired cfg.pace.lease_grace) s in
        if is_err answer then count_error after else after
