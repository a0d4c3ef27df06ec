-- ===== src/Supervisor/Dispatch/Bounds.antt =====
-- How many jobs `fill!` gives a child, whatever the other tasks and the broker do meanwhile.
use tarsk.Base.{
  Bool-cases, List, Option-cases, [], arith, inl, inr, length, max, nat_eq, refl, true, ◌+◌, ◌∙◌,
  ◌∷◌, ◌≡◌, ◌≤◌, ◌⊎◌,
}
use tarsk.Supervisor.{BrokerApi, Job, Shared}
use tarsk.Base.Dict.{length-insert-le}
use tarsk.Base.Float.{Float}
use tarsk.Supervisor.Dispatch.{
  Child, Claimed, Filled, Moment, claim_turn, ended, fill, got, is_idle, may_take, nothing,
  outcome_after, place, verdict_of,
}
use tarsk.Supervisor.Gates.{Pace}

pub Claimed-cases :
    {Acker : Type 0} (claim : Claimed Acker)
    → (claim ≡ ended) ⊎ ((claim ≡ nothing) ⊎ ((job : Job Acker) × (claim ≡ got job)))
Claimed-cases ended = inl refl
Claimed-cases nothing = inr (inl refl)
Claimed-cases (got job) = inr (inr (job, refl))

module _ {fl : Float} {api : BrokerApi fl} where
  -- What a fill may do to a child: within its ceiling, one frame for each free slot it takes.
  pub Within : Child api → Child api → Type 0
  Within child after =
      (length after.inflight ≤ max child.allowed (length child.inflight))
      × (after.free + length after.frames ≡ child.free + length child.frames)
      × (after.allowed ≡ child.allowed)
      × (after.tasks_done ≡ child.tasks_done)

  place-Within :
      (pace : Pace) (m : Moment api) (job : Job api.Acker) (s : Shared api) (child : Child api)
      → may_take child ≡ true
      → Within child ((place pace m job s child).2)
  unfolding place Within
  place-Within pace m job s child h =
      ground (arith, h, length-insert-le job.task_id job child.inflight)

  Within-trans : (a b d : Child api) → Within a b → Within b d → Within a d
  unfolding Within
  Within-trans a b d (i, j, k, l) (i2, j2, k2, l2) =
      (omega (arith, i, i2, k), omega (arith, j, j2), k2 ∙ k, l2 ∙ l)

  Within-refl : (a : Child api) → Within a a
  unfolding Within
  Within-refl a = (omega arith, refl, refl, refl)

  -- Filling a child never takes what it holds above the ceiling, `allowed`, or above what it held
  -- already; it writes one frame for each free slot that it uses up.
  pub fill-Within :
      (pace : Pace) (ms : List (Moment api)) (outcome : Filled) (s : Shared api) (child : Child api)
      → Within child ((fill pace ms outcome s child).2)
  unfolding fill
  fill-Within pace [] outcome s child = Within-refl child
  fill-Within pace (m ∷ ms) outcome s child = elim (Bool-cases (may_take child)) [
    | inr full ↦ rw (full, fill) (Within-refl child)
    | inl room ↦
        let after = (claim_turn pace m (m.before s) child).1 in
        elim (Claimed-cases ((claim_turn pace m (m.before s) child).0)) [
          | inl over ↦ rw (room, over, fill) (Within-refl child)
          | inr (inl waits) ↦ elim (Bool-cases (is_idle child)) [
            | inl idle ↦ rw (room, waits, idle, fill) (fill-Within pace ms outcome after child)
            | inr busy ↦ rw (room, waits, busy, fill) (Within-refl child)
          ]
          | inr (inr (job, e)) ↦
              let (placed, again, filled) = place pace m job after child in
              let within = place-Within pace m job after child room in
              elim (Option-cases (verdict_of placed)) [
                | inl goes_on ↦
                    rw (room, e, goes_on, fill)
                      (Within-trans child filled _ within
                        (fill-Within pace ms (outcome_after placed outcome) again filled))
                | inr (stopped, stops) ↦ rw (room, e, stops, fill) within
              ]
        ]
  ]
