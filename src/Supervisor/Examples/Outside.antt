-- ===== src/Supervisor/Examples/Outside.antt =====
-- Tests of registration, of the scheduler and of the supervisor over the in-memory broker.
use tarsk.Base.{Bool, List, [], false, nat_eq, none, refl, some, text, true, ◌∷◌, ◌≡◌}
use tarsk.Supervisor.{Outcome, nack}
use tarsk.Wire.{MessagePack, Value, array_of, as_u64, decode, field, integer, retry_after, string}
use tarsk.Base.Dict.{lookup, remove}
use tarsk.Base.Fixed.{thousandths}
use tarsk.Supervisor.InMemory.{memory_api}
use tarsk.Supervisor.Register.{on_connection, register_pins, serves}
use tarsk.Supervisor.Settle.{fail_job, may_retry}
use tarsk.Supervisor.Examples.Data.{
  embed_job, in_memory, knows, plain_api, plain_shared, settle_text, world,
}
use tarsk.Supervisor.InMemory.Ending.{fail_job-memory}
use tarsk.Supervisor.Settle.Exactly.{answer}

abbrev greeting : MessagePack
greeting = knows (array_of (string (text "Register") ∷ integer 5 ∷ integer 78 ∷ array_of [] ∷ []))

register_pins_example :
    let (answer, after) =
      on_connection {api = plain_api} greeting (λ v. none) (λ ms log. log) [] plain_shared in
    (after.registry ≡ some (77, 1))
    × (after.specs ≡ plain_shared.specs)
    × (after.store ≡ [])
    × ((waits : Bool)
        → answer ≡ serves waits
        → (vs : List Value) × (decode greeting [] ≡ some vs) × (field as_u64 vs 2 ≡ some 77))
register_pins_example =
    register_pins {api = plain_api} greeting (λ v. none) (λ ms log. log) [] 77 1 plain_shared refl

abbrev retried_failure : Outcome
retried_failure = record (nack (text "ValueError") []) { directive = retry_after 250 }

fail_job-memory_example :
    let after =
      (fail_job {api = memory_api thousandths} settle_text embed_job retried_failure
        in_memory).store.broker in
    (may_retry {api = memory_api thousandths} embed_job retried_failure in_memory ≡ true
      → (after.ready ≡ (3, some 250000010) ∷ []) × (after.jobs ≡ world.broker.jobs))
    × (may_retry {api = memory_api thousandths} embed_job retried_failure in_memory ≡ false
        → (after.ready ≡ []) × (after.jobs ≡ []))
unfolding lookup remove
fail_job-memory_example =
    fail_job-memory settle_text embed_job retried_failure in_memory 3 refl refl
