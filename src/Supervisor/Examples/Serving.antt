-- ===== src/Supervisor/Examples/Serving.antt =====
-- Tests of the loop over a child.
use tarsk.Base.{[], false, nat_eq, none, refl, true, ◌+◌, ◌∷◌, ◌≡◌}
use tarsk.Broker.{u64}
use tarsk.Base.Dict.{Distinct, lookup}
use tarsk.Supervisor.Checking.{check, going, leaves, over_hard_limit}
use tarsk.Supervisor.Dispatch.{is_idle}
use tarsk.Supervisor.Serve.{drop_stale, on_answer, on_tick, over_hard_max}
use tarsk.Supervisor.Examples.Data.{
  answered_42, busy_serving, embed_job, over_limit, plain_api, plain_shared, small_cfg,
}
use tarsk.Supervisor.Serve.Acks.{held_jobs, on_answer_once}
use tarsk.Supervisor.Serve.Retiring.{on_tick_retires}

on_answer_once_example :
    let after = (on_answer {api = plain_api} over_limit 3 answered_42 busy_serving).1 in
    (held_jobs {api = plain_api} after ≡ 1)
    × Distinct after.child.inflight
    × (on_answer {api = plain_api} over_limit 3 answered_42 after ≡ (going, after))
    × (after.child.to_settle ≡ (embed_job, answered_42) ∷ [])
    × (after.child.tasks_done ≡ u64 (busy_serving.child.tasks_done + 1))
unfolding lookup
on_answer_once_example =
    on_answer_once {api = plain_api} over_limit 3 answered_42 busy_serving (refl, tt) refl

on_tick_retires_example :
    let (stale_s, stale) = drop_stale {api = plain_api} small_cfg 20 plain_shared busy_serving in
    let reading = (check {api = plain_api} small_cfg over_limit stale_s stale).0 in
    let (turn, after, kept) =
      on_tick {api = plain_api} small_cfg over_limit plain_shared busy_serving in
    (turn ≡ going → (over_hard_max small_cfg reading.rss ≡ false) × (reading.trigger ≡ none))
    × (turn ≡ leaves over_hard_limit
        → (over_hard_max small_cfg reading.rss ≡ true) × (is_idle kept.child ≡ false))
on_tick_retires_example =
    on_tick_retires {api = plain_api} small_cfg over_limit plain_shared busy_serving
