-- ===== src/Broker/Memory/System.antt =====
-- The in-memory broker and its clients: every claimed job is settled or requeued by who holds it.
-- A broker, the ids that were claimed from it and neither settled nor requeued yet, and the ids of
-- all claims so far.
use tarsk.Base.{
  Bool, List, Option, [], arith, if◌then◌else◌, ltb, nat_eq, none, some, suc, ℕ, ◌+◌, ◌<◌, ◌==◌,
  ◌^◌, ◌∷◌, ◌≡◌,
}
use tarsk.Broker.{Delivery, NewJob, memory}
use tarsk.Base.Float.{Float}
use tarsk.Broker.Memory.{MemoryBroker, claim, empty_broker, push, requeue, settle}

pub record System (fl : Float) : Type 0 where
  pub broker : MemoryBroker fl
  pub held : List ℕ
  pub claims : List ℕ

unfoldable pub start : (fl : Float) → System fl
start fl = record { broker = empty_broker fl; held = []; claims = [] }

-- How often an id is held.
unfoldable pub times : ℕ → List ℕ → ℕ
times j [] = 0
times j (id ∷ held) = if id == j then suc (times j held) else times j held

-- One holder of the id gives it up.
unfoldable pub drop_one : ℕ → List ℕ → List ℕ
drop_one j [] = []
drop_one j (id ∷ held) = if id == j then held else id ∷ drop_one j held

abbrev holds : ℕ → List ℕ → Bool
holds j held = ltb 0 (times j held)

pub times-drop_one :
    (j id : ℕ) (held : List ℕ)
    → 0 < times id held
    → times j held
      ≡ (if id == j then suc (times j (drop_one id held)) else times j (drop_one id held))
unfolding times drop_one
times-drop_one j id [] h = absurd (omega arith)
times-drop_one j id (i ∷ held) h = ground (arith, times-drop_one j id held)

abbrev pub take_hold : {Acker : Type 0} → Option (Delivery Acker) → List ℕ → List ℕ
take_hold none held = held
take_hold (some d) held = elim d.receipt [ memory id ↦ id ∷ held | _ ↦ held ]

module _ {fl : Float} where
  -- `claim`, and who holds what after it.
  unfoldable pub after_claim : Type 0 → ℕ → System fl → System fl
  after_claim Acker now s =
      let (broker, delivered) = claim Acker now s.broker in
      record {
        broker = broker;
        held = take_hold delivered s.held;
        claims = take_hold delivered s.claims;
      }

  -- A call of the broker by one of its clients. A client settles or requeues what it holds.
  pub data Step : System fl → System fl → Type 0 where
    pushed :
        (s : System fl) (job : NewJob) (delay now wall_ms : ℕ)
        → s.broker.next_id + 1 < 2 ^ 64
        → Step s (record s { broker = push job delay now wall_ms s.broker })
    claimed : (s : System fl) (now : ℕ) → Step s (after_claim (Unit {0}) now s)
    settled :
        (s : System fl) (id : ℕ)
        → 0 < times id s.held
        → Step s (record s { broker = settle id s.broker; held = drop_one id s.held })
    requeued :
        (s : System fl) (id delay now : ℕ)
        → 0 < times id s.held
        → Step s (record s { broker = requeue id delay now s.broker; held = drop_one id s.held })

  pub data Reach (s : System fl) : System fl → Type 0 where
    stay : Reach s s
    step : {t u : System fl} → Reach s t → Step t u → Reach s u
