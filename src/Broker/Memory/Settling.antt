-- ===== src/Broker/Memory/Settling.antt =====
-- The in-memory broker and its clients, each of which settles or requeues only what it holds.
use tarsk.Base.{
  All, List, Option, Option-cases, arith, false, if◌then◌else◌, inl, inr, nat_eq, none, refl, some,
  true, ℕ, ◌+◌, ◌<◌, ◌^◌, ◌≡◌, ◌≤◌, ◌⊎◌,
}
use tarsk.Broker.{NewJob, as_millis, u32, u64}
use tarsk.Base.Dict.{contains_key, insert, lookup, lookup-insert, lookup-remove}
use tarsk.Base.Float.{Float}
use tarsk.Broker.Memory.{
  Held, claim, deliver, delivery, due_after, empty_broker, is_due, push, requeue, settle,
}
use tarsk.Broker.Memory.Queue.{FirstDue, entries, entries-FirstDue, entries-append, take_due_cases}
use tarsk.Broker.Memory.System.{
  Reach, Step, System, after_claim, claimed, drop_one, pushed, requeued, settled, start, stay, step,
  times, times-drop_one,
}

module _ {fl : Float} where
  -- Each job of the store is queued once or held once, and nothing else is queued or held.
  pub record Inv (s : System fl) : Type 0 where
    pub accounted :
        (j : ℕ)
        → entries j s.broker.ready + times j s.held
          ≡ (if contains_key j s.broker.jobs then 1 else 0)
    pub below : (j : ℕ) → contains_key j s.broker.jobs ≡ true → j < s.broker.next_id
    pub unclaimed : (j : ℕ) → s.broker.next_id ≤ j → times j s.claims ≡ 0
    pub counted :
        (j : ℕ) (h : Held) → lookup j s.broker.jobs ≡ some h → h.attempts ≡ u32 (times j s.claims)

  push-Inv :
      (s : System fl) (job : NewJob) (delay now wall_ms : ℕ)
      → s.broker.next_id + 1 < 2 ^ 64
      → Inv s
      → Inv (record s { broker = push job delay now wall_ms s.broker })
  unfolding push
  push-Inv s job delay now wall_ms room v = record {
    accounted = λ j. ground (
      arith,
      v.accounted j,
      v.below j,
      entries-append j s.broker.next_id (due_after delay now) s.broker.ready,
      lookup-insert s.broker.next_id j
          (record { job = job; attempts = 0; ready_ms = u64 (wall_ms + u64 (as_millis delay)) })
          s.broker.jobs,
    );
    below = λ j h. ground (
      arith,
      v.below j,
      lookup-insert s.broker.next_id j
          (record { job = job; attempts = 0; ready_ms = u64 (wall_ms + u64 (as_millis delay)) })
          s.broker.jobs,
    );
    unclaimed = λ j h. v.unclaimed j (omega arith);
    counted = λ j h e. ground (
      arith,
      v.counted j h,
      v.unclaimed j,
      lookup-insert s.broker.next_id j
          (record { job = job; attempts = 0; ready_ms = u64 (wall_ms + u64 (as_millis delay)) })
          s.broker.jobs,
    );
  }

  settle-Inv :
      (s : System fl) (id : ℕ)
      → 0 < times id s.held
      → Inv s
      → Inv (record s { broker = settle id s.broker; held = drop_one id s.held })
  unfolding settle
  settle-Inv s id holds v = record {
    accounted = λ j. ground (
      arith,
      v.accounted j,
      v.accounted id,
      lookup-remove id j s.broker.jobs,
      times-drop_one j id s.held holds,
    );
    below = λ j h. ground (arith, v.below j, lookup-remove id j s.broker.jobs);
    unclaimed = v.unclaimed;
    counted = λ j h e. ground (arith, v.counted j h, lookup-remove id j s.broker.jobs);
  }

  requeue-Inv :
      (s : System fl) (id delay now : ℕ)
      → 0 < times id s.held
      → Inv s
      → Inv (record s { broker = requeue id delay now s.broker; held = drop_one id s.held })
  unfolding requeue
  requeue-Inv s id delay now holds v = record {
    accounted = λ j. ground (
      arith,
      v.accounted j,
      v.accounted id,
      entries-append j id (due_after delay now) s.broker.ready,
      times-drop_one j id s.held holds,
    );
    below = λ j h. ground (arith, v.below j);
    unclaimed = λ j h. ground (arith, v.unclaimed j);
    counted = λ j h e. ground (arith, v.counted j h);
  }

  -- What a claim does to an accounted store: with no entry due, nothing; else the first due entry
  -- is delivered, with its attempts counted.
  pub claim_cases :
      (Acker : Type 0) (now : ℕ) (s : System fl)
      → Inv s
      → ((claim Acker now s.broker ≡ (s.broker, none))
          × All (λ entry. is_due now entry.1 ≡ false) s.broker.ready)
        ⊎ ((id : ℕ) × (rest : List (ℕ × Option ℕ)) × (h : Held) × FirstDue now id s.broker.ready
              rest
            × (lookup id s.broker.jobs ≡ some h)
            × (claim Acker now s.broker ≡ (
              record s.broker {
                ready = rest;
                jobs = insert id (record h { attempts = u32 (h.attempts + 1) }) s.broker.jobs;
              },
              some (delivery Acker id (record h { attempts = u32 (h.attempts + 1) })),
            )))
  unfolding claim
  claim_cases Acker now s v = elim (take_due_cases now s.broker.ready) [
    | inl (e, idle) ↦ inl (rw (e, claim), idle)
    | inr (id, rest, e, first) ↦ elim (Option-cases (lookup id s.broker.jobs)) [
      | inl missing ↦ absurd (ground (arith, v.accounted id, entries-FirstDue first id))
      | inr (h, found) ↦ inr (id, rest, h, first, found, rw (e, claim) (rw (found, deliver)))
    ]
  ]

  claim-Inv : (now : ℕ) (s : System fl) → Inv s → Inv (after_claim (Unit {0}) now s)
  unfolding after_claim times
  claim-Inv now s v = elim (claim_cases (Unit {0}) now s v) [
    | inl (e, idle) ↦ rw (e, after_claim) v
    | inr (id, rest, h, first, found, e) ↦
        rw (e, after_claim)
          (record {
            accounted = λ j. ground (
              arith,
              v.accounted j,
              v.accounted id,
              entries-FirstDue first j,
              lookup-insert id j (record h { attempts = u32 (h.attempts + 1) }) s.broker.jobs,
            );
            below = λ j k. ground (
              arith,
              v.below j,
              lookup-insert id j (record h { attempts = u32 (h.attempts + 1) }) s.broker.jobs,
            );
            unclaimed = λ j k. ground (arith, v.unclaimed j, v.below id);
            counted = λ j g k. ground (
              arith,
              v.counted j g,
              v.counted id h,
              lookup-insert id j (record h { attempts = u32 (h.attempts + 1) }) s.broker.jobs,
            );
          })
  ]

  Step-Inv : {s t : System fl} → Step s t → Inv s → Inv t
  Step-Inv (pushed s job delay now wall_ms room) v = push-Inv s job delay now wall_ms room v
  Step-Inv (claimed s now) v = claim-Inv now s v
  Step-Inv (settled s id holds) v = settle-Inv s id holds v
  Step-Inv (requeued s id delay now holds) v = requeue-Inv s id delay now holds v

  pub Reach-Inv : {s : System fl} → Reach (start fl) s → Inv s
  unfolding start empty_broker lookup times entries
  Reach-Inv stay = record {
    accounted = λ j. refl;
    below = λ j h. cc;
    unclaimed = λ j h. refl;
    counted = λ j h e. cc;
  }
  Reach-Inv (step reached taken) = Step-Inv taken (Reach-Inv reached)

  -- In every reachable state a claim takes the first entry of the queue that is due, keeps the
  -- others in order and delivers that entry's job with its attempts counted up by one; it comes
  -- back empty-handed, with nothing changed, only when no entry is due.
  pub claim-FirstDue :
      (Acker : Type 0) (now : ℕ) {s : System fl}
      → Reach (start fl) s
      → ((claim Acker now s.broker ≡ (s.broker, none))
          × All (λ entry. is_due now entry.1 ≡ false) s.broker.ready)
        ⊎ ((id : ℕ) × (rest : List (ℕ × Option ℕ)) × (h : Held) × FirstDue now id s.broker.ready
              rest
            × (lookup id s.broker.jobs ≡ some h)
            × (claim Acker now s.broker ≡ (
              record s.broker {
                ready = rest;
                jobs = insert id (record h { attempts = u32 (h.attempts + 1) }) s.broker.jobs;
              },
              some (delivery Acker id (record h { attempts = u32 (h.attempts + 1) })),
            )))
  claim-FirstDue Acker now {s} reached = claim_cases Acker now s (Reach-Inv reached)
