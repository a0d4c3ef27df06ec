-- ===== src/Broker/Memory/Examples.antt =====
-- Tests of the in-memory broker, and its theorems at concrete inputs.
use tarsk.Base.{
  All, List, Option, [], arith, false, nat_eq, none, refl, some, text, text_eq, ℕ, ◌+◌, ◌≡◌, ◌⊎◌,
}
use tarsk.Broker.{NewJob, u32}
use tarsk.Base.Dict.{insert, lookup, remove}
use tarsk.Base.Fixed.{thousandths}
use tarsk.Broker.Memory.{Held, claim, delivery, empty_broker, is_due, push, requeue, take_due}
use tarsk.Broker.Memory.Queue.{FirstDue}
use tarsk.Broker.Memory.Settling.{Inv, Reach-Inv, claim-FirstDue}
use tarsk.Broker.Memory.System.{
  Reach, System, after_claim, claimed, drop_one, pushed, requeued, start, stay, step, times,
}

abbrev job : NewJob
job = record {
  id = text "j1";
  queue = text "default";
  name = text "embed";
  payload = [];
  timeout_ms = 1000;
  meta = [];
  expires_ms = 0;
  chain = [];
}

abbrev empty : System thousandths
empty = start thousandths

abbrev queued : System thousandths
queued = record empty { broker = push job 0 7 1000 empty.broker }

abbrev taken : System thousandths
taken = after_claim (Unit {0}) 8 queued

abbrev back : System thousandths
back = record taken { broker = requeue 0 500 9 taken.broker; held = drop_one 0 taken.held }

program : Unit {0}
unfolding start empty_broker push claim requeue take_due lookup insert remove after_claim drop_one
    times
program = tt

queued-room : queued.broker.next_id ≡ 1
unfolding program
queued-room = refl

back-Reach : Reach empty back
unfolding program
back-Reach =
    step (step (step stay (pushed empty job 0 7 1000 (omega arith))) (claimed queued 8))
      (requeued taken 0 500 9 (omega arith))

Reach-Inv_example : Inv back
Reach-Inv_example = Reach-Inv back-Reach

claim-FirstDue_example :
    ((claim (Unit {0}) 9 back.broker ≡ (back.broker, none))
      × All (λ entry. is_due 9 entry.1 ≡ false) back.broker.ready)
    ⊎ ((id : ℕ) × (rest : List (ℕ × Option ℕ)) × (h : Held) × FirstDue 9 id back.broker.ready rest
        × (lookup id back.broker.jobs ≡ some h)
        × (claim (Unit {0}) 9 back.broker ≡ (
          record back.broker {
            ready = rest;
            jobs = insert id (record h { attempts = u32 (h.attempts + 1) }) back.broker.jobs;
          },
          some (delivery (Unit {0}) id (record h { attempts = u32 (h.attempts + 1) })),
        )))
claim-FirstDue_example = claim-FirstDue (Unit {0}) 9 back-Reach
