-- ===== src/Supervisor/Examples/Dispatching.antt =====
-- Tests of settling and dispatching.
use tarsk.Base.{List, [], contains, false, length, nat_eq, refl, some, ◌+◌, ◌∷◌, ◌≡◌}
use tarsk.Base.Dict.{insert, lookup, remove}
use tarsk.Base.Fixed.{thousandths}
use tarsk.Supervisor.Dispatch.{dispatch, fill, fill_empty, place, written}
use tarsk.Supervisor.Gates.{
  admit, is_revoked, is_stale, rate_gate, revoked_gate, slot_gate, stale_gate,
}
use tarsk.Supervisor.Settle.{settle}
use tarsk.Supervisor.Dispatch.Bounds.{Within, fill-Within}
use tarsk.Supervisor.Dispatch.Placing.{lost_count, place_once, place_written}
use tarsk.Supervisor.Examples.Data.{
  answered_42, embed_job, idle_child, plain_api, plain_shared, quiet_moment, settle_text,
  small_pace, steady,
}
use tarsk.Supervisor.Settle.Exactly.{Call, settle_once, verdict, verdicts}

settle_once_example :
    (before : List (Call (Unit {0}))) × ((settle {api = plain_api} settle_text 9 embed_job
        answered_42 plain_shared).store
      ≡ verdict thousandths steady settle_text embed_job answered_42 plain_shared ∷ before)
    × (verdicts before ≡ verdicts plain_shared.store)
settle_once_example =
    settle_once thousandths steady settle_text 9 embed_job answered_42 plain_shared

program : Unit {0}
unfolding place admit stale_gate rate_gate slot_gate revoked_gate lookup contains insert remove
    verdicts
program = tt

-- The job passes every gate.
place-job :
    (place {api = plain_api} small_pace quiet_moment embed_job plain_shared idle_child).0 ≡ written
unfolding program
place-job = refl

place_once_example :
    let (placed, after, child_after) =
      place {api = plain_api} small_pace quiet_moment embed_job plain_shared idle_child in
    length (verdicts after.store)
      + length child_after.inflight
      + length child_after.to_settle
      + lost_count placed
    ≡ 1
unfolding program
place_once_example =
    place_once thousandths steady small_pace quiet_moment embed_job plain_shared idle_child refl

place_written_example :
    (is_stale {api = plain_api} 2000 embed_job plain_shared ≡ false)
    × (is_revoked {api = plain_api} embed_job plain_shared ≡ false)
    × (let after =
          (place {api = plain_api} small_pace quiet_moment embed_job plain_shared idle_child).2 in
        (lookup 3 after.inflight ≡ some embed_job)
        × (after.frames ≡ dispatch embed_job ∷ [])
        × (after.free ≡ 1))
place_written_example =
    place_written {api = plain_api} small_pace quiet_moment embed_job plain_shared idle_child
      place-job

fill-Within_example : Within {api = plain_api} idle_child (
    (fill {api = plain_api} small_pace
      (quiet_moment ∷ quiet_moment ∷ [])
      fill_empty
      plain_shared
      idle_child).2)
fill-Within_example =
    fill-Within {api = plain_api} small_pace (quiet_moment ∷ quiet_moment ∷ []) fill_empty
      plain_shared idle_child
