-- ===== src/Supervisor/Examples/Leaving.antt =====
-- Tests of how children leave their slots, and of the end of a run.
use tarsk.Base.{Bool, [], nat_eq, none, refl, some, true, ◌+◌, ◌≡◌}
use tarsk.Broker.{Receipt}
use tarsk.Ceiling.{max_rss_reason}
use tarsk.Base.Dict.{lookup}
use tarsk.Base.Fixed.{thousandths}
use tarsk.Base.Int.{pos}
use tarsk.Supervisor.Checking.{recycle}
use tarsk.Supervisor.Draining.{drain, drain_loop}
use tarsk.Supervisor.Finishing.{give_up, no_worker, report}
use tarsk.Supervisor.Ledger.{held, settled}
use tarsk.Supervisor.Slot.{Leaving, not_started, on_exit}
use tarsk.Supervisor.Examples.Data.{
  busy_serving, in_memory, plain_api, plain_shared, settle_text, small_cfg, steady,
}
use tarsk.Supervisor.Finishing.Answers.{IsSorted, report_answers}
use tarsk.Supervisor.Ledger.Replacing.{held_beside, on_exit_settles}

-- A child that does not end by itself, and whose replacement does not start.
abbrev killed_leaving : Leaving plain_api
killed_leaving = record {
  ending = record { at_once = none; later_code = some (pos 137) };
  frames = [];
  spare_ending = record { at_once = some (pos 0); later_code = none };
  spare_frames = [];
  meets = λ s. s;
  launch = not_started;
}

abbrev every : Receipt (Unit {0}) → Bool
every r = true

on_exit_settles_example :
    let turned =
      on_exit {api = plain_api} settle_text small_cfg killed_leaving
        (recycle max_rss_reason)
        none
        busy_serving
        plain_shared in
    settled every turned.shared.store + held_beside {api = plain_api} every turned.draining ≡ 1
unfolding settled held drain drain_loop lookup
on_exit_settles_example =
    on_exit_settles thousandths steady settle_text every small_cfg killed_leaving
      (recycle max_rss_reason) none busy_serving plain_shared (refl, tt) tt (λ t. refl) (λ t. refl)

report_answers_example :
    let outcomes = (report (give_up in_memory)).outcomes in
    (lookup 0 outcomes ≡ some no_worker) × IsSorted outcomes
unfolding lookup
report_answers_example = report_answers 0 in_memory refl
