-- ===== src/Supervisor/Dispatch.antt =====
-- Handing jobs to a child (the `fill!` of `serve_inner`, lib.rs): a claimed job passes four gates,
-- for staleness, rate, concurrency and cancellation, before it is written to the child.
pub mod Placing
pub mod Bounds
use tarsk.Base.{
  Bool, List, Option, [], err, false, if◌then◌else◌, is_err, length, ltb, nat_eq, none, ok, some,
  text, text_eq, true, ℕ, ◌&&◌, ◌++◌, ◌-◌, ◌==◌, ◌∷◌,
}
use tarsk.Supervisor.{BrokerApi, Job, Outcome, Shared, batch, call, count_error}
use tarsk.Wire.{Value, array_of, binary, integer, string}
use tarsk.Base.Dict.{Dict, insert}
use tarsk.Base.Float.{Float}
use tarsk.Broker.Memory.{claim}
use tarsk.Supervisor.Gates.{Pace, admit, end_with, hand_back, pass}
use tarsk.Supervisor.Settle.{adopt, try_job}
use tarsk.Supervisor.Settle.Exactly.{answer}

pub data Filled : Type 0 where
  fill_sent fill_empty fill_dead fill_done : Filled

-- What became of a claimed job.
pub data Placed : Type 0 where
  handed_back queued lost written unwritten : Placed

pub data Claimed (Acker : Type 0) : Type 0 where
  got : Job Acker → Claimed Acker
  nothing ended : Claimed Acker

-- One child as its slot sees it. `to_settle` is the channel of `settle_task`, oldest first;
-- `frames` are the frames written to the child, newest first.
pub record Child {fl : Float} (api : BrokerApi fl) : Type 0 where
  pub inflight : Dict ℕ (Job api.Acker)
  pub free : ℕ
  pub allowed : ℕ
  pub tasks_done : ℕ
  pub to_settle : List (Job api.Acker × Outcome)
  pub frames : List Value

-- What one turn of the loop meets: what the other tasks do to `Shared` before it claims, while it
-- claims and while it is parked, the clocks, and whether the channels to the settle task and to the
-- child are open.
pub record Moment {fl : Float} (api : BrokerApi fl) : Type 0 where
  pub before : Shared api → Shared api
  pub claiming : Shared api → Shared api
  pub parked : Shared api → Shared api
  pub now : ℕ
  pub wall_ms : ℕ
  pub settle_open : Bool
  pub child_open : Bool

abbrev pub dispatch : {Acker : Type 0} → Job Acker → Value
dispatch job = array_of (
    string (text "Dispatch")
    ∷ integer job.task_id
    ∷ string job.name
    ∷ binary job.payload
    ∷ binary job.meta
    ∷ integer job.attempt
    ∷ [])

-- `none` is to go on.
abbrev pub verdict_of : Placed → Option Filled
verdict_of lost = some fill_dead
verdict_of unwritten = some fill_dead
verdict_of _ = none

abbrev pub outcome_after : Placed → Filled → Filled
outcome_after written outcome = fill_sent
outcome_after _ outcome = outcome

module _ {fl : Float} {api : BrokerApi fl} where
  unfoldable pub place :
      Pace → Moment api → Job api.Acker → Shared api → Child api → Placed × Shared api × Child api
  place pace m job s child =
      let (gate, after) = admit pace m.wall_ms job s in
      elim gate [
        | hand_back delay ↦ (handed_back, (call (api.retry job.receipt delay) after).1, child)
        | end_with outcome ↦
            if m.settle_open
            then (
              queued,
              after,
              record child { to_settle = child.to_settle ++ ((job, outcome) ∷ []) },
            )
            else (lost, after, child)
        | pass ↦ (
          if m.child_open then written else unwritten,
          after,
          record child {
            inflight = insert job.task_id job child.inflight;
            free = child.free - 1;
            frames = dispatch job ∷ child.frames;
          },
        )
      ]

  abbrev pub is_idle : Child api → Bool
  is_idle child = length child.inflight == 0

  -- One pass of the loop of `next_job`, which claims until it gets a job or the work is done. What
  -- other tasks do before it looks at `done` is `claiming`; in batch mode it then waits, and after
  -- that claims once more.
  unfoldable pub next_job_turn : Pace → Moment api → Shared api → Claimed api.Acker × Shared api
  next_job_turn pace m s =
      let (answer, after) = call (api.claim pace.lease_grace pace.claim_block) s in
      let counted = if is_err answer then count_error after else after in
      let met = m.claiming counted in
      let waited = if batch met then m.parked met else met in
      let without = if met.done then (ended, met) else (nothing, waited) in
      elim answer [
        | err ↦ without
        | ok found ↦ elim found [
          | none ↦ without
          | some d ↦ let (job, adopting) = adopt m.now d after in (got job, adopting)
        ]
      ]

  unfoldable pub claim_turn :
      Pace → Moment api → Shared api → Child api → Claimed api.Acker × Shared api
  claim_turn pace m s child =
      if is_idle child
      then next_job_turn pace m s
      else let (found, after) = try_job m.now pace.lease_grace s in
        (elim found [ none ↦ nothing | some job ↦ got job ], after)

  abbrev pub may_take : Child api → Bool
  may_take child = ltb 0 child.free && ltb (length child.inflight) child.allowed

  -- The loop, over the turns that it gets: `none` is a loop that is still waiting or working.
  unfoldable pub fill :
      Pace
      → List (Moment api)
      → Filled
      → Shared api
      → Child api
      → Option Filled × Shared api × Child api
  fill pace [] outcome s child = (none, s, child)
  fill pace (m ∷ ms) outcome s child = elim (may_take child) [
    | false ↦ (some outcome, s, child)
    | true ↦
        let (claim, after) = claim_turn pace m (m.before s) child in
        elim claim [
          | ended ↦ (some fill_done, after, child)
          | nothing ↦ elim (is_idle child) [
            | true ↦ fill pace ms outcome after child
            | false ↦ (some outcome, after, child)
          ]
          | got job ↦
              let (placed, later_s, later_child) = place pace m job after child in
              elim (verdict_of placed) [
                | some stopped ↦ (some stopped, later_s, later_child)
                | none ↦ fill pace ms (outcome_after placed outcome) later_s later_child
              ]
        ]
  ]
