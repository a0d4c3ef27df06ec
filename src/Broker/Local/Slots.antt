-- ===== src/Broker/Local/Slots.antt =====
-- The concurrency slots of `LocalCoordination`.
use tarsk.Base.{
  All, Option-cases, Text, [], ap, arith, false, if◌then◌else◌, inl, inr, leb, length,
  length-keep-le, ltb, max, none, refl, text_eq, true, ℕ, ◌&&◌, ◌+◌, ◌<◌, ◌==◌, ◌↔◌, ◌∷◌, ◌≡◌, ◌≤◌,
}
use tarsk.Broker.{from_millis}
use tarsk.Base.Dict.{Dict, insert, length-insert-le, lookup, lookup-insert, lookup-remove, remove}
use tarsk.Base.Float.{Float}
use tarsk.Broker.Local.{LocalCoordination, acquire_slot, held_by, live, release_slot}
use tarsk.Broker.Running.{after}

-- Nothing is left running of slots whose leases have all ended.
expired-nil : (now : ℕ) (held : Dict Text ℕ) → All (λ s. s.1 ≤ now) held → live now held ≡ []
expired-nil now [] h = refl
expired-nil now (s ∷ held) h = ground (arith, expired-nil now held h.1)

module _ {fl : Float} where
  -- Of the slots of one task, those whose lease runs past `now`.
  abbrev pub running : ℕ → Text → LocalCoordination fl → Dict Text ℕ
  running now task c = live now (held_by task c)

  granted_iff :
      (task job_id : Text) (limit lease_ms now : ℕ) (c : LocalCoordination fl)
      → ((acquire_slot task job_id limit lease_ms now c).1 ≡ true)
        ↔ (length (running now task c) < limit)
  unfolding acquire_slot
  granted_iff task job_id limit lease_ms now c = ground arith

  pub held_by-acquire_slot :
      (task job_id other : Text) (limit lease_ms now : ℕ) (c : LocalCoordination fl)
      → held_by other (acquire_slot task job_id limit lease_ms now c).0 ≡ (
          if task == other
          then (if leb limit (length (running now task c))
              then running now task c
              else insert job_id (now + from_millis (max lease_ms 1)) (running now task c))
          else held_by other c)
  unfolding acquire_slot
  held_by-acquire_slot task job_id other limit lease_ms now c = ground (
    arith,
    lookup-insert task other (running now task c) c.slots,
    lookup-insert task other
        (insert job_id (now + from_millis (max lease_ms 1)) (running now task c)) c.slots,
  )

  pub acquire_slot_contract :
      (task job_id other : Text) (limit lease_ms now : ℕ) (c : LocalCoordination fl)
      → length (held_by other c) ≤ limit
      → let (after, granted) = acquire_slot task job_id limit lease_ms now c in
        ((granted ≡ true) ↔ (length (running now task c) < limit))
        × (length (held_by other after) ≤ limit)
        × ((task == other) ≡ false → held_by other after ≡ held_by other c)
  acquire_slot_contract task job_id other limit lease_ms now c h = (
    granted_iff task job_id limit lease_ms now c,
    ground (
      arith,
      held_by-acquire_slot task job_id other limit lease_ms now c,
      text_eq.beq_iff task other,
      length-insert-le job_id (now + from_millis (max lease_ms 1)) (running now task c),
      length-keep-le (λ (entry : Text × ℕ). ltb now entry.1) (held_by task c),
    ),
    λ differ. ground (arith, held_by-acquire_slot task job_id other limit lease_ms now c),
  )

  -- Every slot whose lease has ended is free again: with none running past `now`, the next job
  -- gets a slot.
  acquire_slot-expired :
      (task job_id : Text) (limit lease_ms now : ℕ) (c : LocalCoordination fl)
      → 0 < limit
      → All (λ s. s.1 ≤ now) (held_by task c)
      → (acquire_slot task job_id limit lease_ms now c).1 ≡ true
  acquire_slot-expired task job_id limit lease_ms now c positive h =
      (granted_iff task job_id limit lease_ms now c).1
        (omega (arith, ap length (expired-nil now (held_by task c) h)))

  -- After a release the job holds no slot of the task, whatever its lease; every other job of the
  -- task and every other task keeps what it had. So a second release changes nothing.
  pub lookup-release_slot :
      (task job_id other who : Text) (c : LocalCoordination fl)
      → lookup who (held_by other (release_slot task job_id c))
        ≡ (if task == other && job_id == who then none else lookup who (held_by other c))
  unfolding release_slot lookup
  lookup-release_slot task job_id other who c = elim (Option-cases (lookup task c.slots)) [
    | inl missing ↦ rw (missing, release_slot) (ground (arith, text_eq.beq_iff task other))
    | inr (held, found) ↦
        rw (found, release_slot)
          (ground (
            arith,
            text_eq.beq_iff task other,
            lookup-insert task other (remove job_id held) c.slots,
            lookup-remove job_id who held,
          ))
  ]
