-- ===== src/Supervisor/Dispatch/Placing.antt =====
-- What `fill!` does with each job that it claims, and how many it gives a child.
use tarsk.Base.{
  [], arith, false, inl, inr, length, length-append, nat_eq, none, refl, some, ℕ, ◌+◌, ◌-◌, ◌∷◌,
  ◌≡◌, ◌⊎◌,
}
use tarsk.Supervisor.{BrokerApi, Job, Outcome, Shared}
use tarsk.Base.Dict.{length-insert-absent, lookup, lookup-insert_self}
use tarsk.Base.Float.{Float}
use tarsk.Supervisor.Dispatch.{Child, Moment, Placed, dispatch, lost, place, written}
use tarsk.Supervisor.Gates.{
  Gate, Pace, admit, end_with, hand_back, is_revoked, is_stale, pass, rate_gate, revoked_gate,
  slot_gate, stale_gate,
}
use tarsk.Supervisor.Settle.Exactly.{Oracle, logging, verdicts}

pub Gate-cases :
    (g : Gate)
    → (g ≡ pass)
      ⊎ (((delay : ℕ) × (g ≡ hand_back delay)) ⊎ ((outcome : Outcome) × (g ≡ end_with outcome)))
Gate-cases pass = inl refl
Gate-cases (hand_back delay) = inr (inl (delay, refl))
Gate-cases (end_with outcome) = inr (inr (outcome, refl))

abbrev pub lost_count : Placed → ℕ
lost_count lost = 1
lost_count _ = 0

module _ {fl : Float} {api : BrokerApi fl} where
  -- The gates change neither what is registered nor what is revoked.
  admit-specs :
      (pace : Pace) (wall_ms : ℕ) (job : Job api.Acker) (s : Shared api)
      → let after = (admit pace wall_ms job s).1 in
        (after.specs ≡ s.specs) × (after.revoked ≡ s.revoked)
  unfolding admit stale_gate rate_gate slot_gate revoked_gate
  admit-specs pace wall_ms job s = ground arith

  admit-pass :
      (pace : Pace) (wall_ms : ℕ) (job : Job api.Acker) (s : Shared api)
      → (admit pace wall_ms job s).0 ≡ pass
      → (is_stale wall_ms job s ≡ false) × (is_revoked job s ≡ false)
  unfolding admit stale_gate rate_gate slot_gate revoked_gate
  admit-pass pace wall_ms job s h = ground (arith, h)

  -- A job is written to the child only if it has not waited past its expiry and is not cancelled;
  -- then it is in flight under its id, it takes one free slot of the child, and the frame is its
  -- own Dispatch.
  pub place_written :
      (pace : Pace) (m : Moment api) (job : Job api.Acker) (s : Shared api) (child : Child api)
      → (place pace m job s child).0 ≡ written
      → (is_stale m.wall_ms job s ≡ false)
        × (is_revoked job s ≡ false)
        × (let after = (place pace m job s child).2 in
            (lookup job.task_id after.inflight ≡ some job)
            × (after.frames ≡ dispatch job ∷ child.frames)
            × (after.free ≡ child.free - 1))
  unfolding place
  place_written pace m job s child h =
      ground (
        arith,
        h,
        admit-pass pace m.wall_ms job s,
        lookup-insert_self job.task_id job child.inflight,
      )

module _ (fl : Float) {Acker : Type 0} (o : Oracle Acker) where
  admit-verdicts :
      (pace : Pace) (wall_ms : ℕ) (job : Job Acker) (s : Shared (logging fl Acker o))
      → verdicts ((admit {api = logging fl Acker o} pace wall_ms job s).1.store) ≡ verdicts s.store
  unfolding admit stale_gate rate_gate slot_gate revoked_gate verdicts
  admit-verdicts pace wall_ms job s = ground arith

  -- A claimed job is neither lost nor doubled, whatever the broker answers: it adds one to the
  -- settlements asked of the broker, the jobs in flight and the outcomes that wait to be settled,
  -- together. The one exception is counted by `lost_count`: the settle task is gone. No job of the
  -- same id may be in flight in this child.
  pub place_once :
      (pace : Pace) (m : Moment (logging fl Acker o)) (job : Job Acker)
      (s : Shared (logging fl Acker o)) (child : Child (logging fl Acker o))
      → lookup job.task_id child.inflight ≡ none
      → let (placed, after, child_after) = place {api = logging fl Acker o} pace m job s child in
        length (verdicts after.store)
          + length child_after.inflight
          + length child_after.to_settle
          + lost_count placed
        ≡ length (verdicts s.store) + length child.inflight + length child.to_settle + 1
  unfolding place verdicts
  place_once pace m job s child fresh_id =
      elim (Gate-cases ((admit {api = logging fl Acker o} pace m.wall_ms job s).0)) [
        | inl e ↦ ground (
          arith,
          e,
          admit-verdicts pace m.wall_ms job s,
          length-insert-absent job.task_id job child.inflight fresh_id,
        )
        | inr other ↦ elim other [
          | inl (delay, e) ↦ ground (arith, e, admit-verdicts pace m.wall_ms job s)
          | inr (outcome, e) ↦ ground (
            arith,
            e,
            admit-verdicts pace m.wall_ms job s,
            length-append child.to_settle ((job, outcome) ∷ []),
          )
        ]
      ]
