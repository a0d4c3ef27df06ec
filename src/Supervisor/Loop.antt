-- ===== src/Supervisor/Loop.antt =====
-- The whole of `serve` (lib.rs): the loop of `serve_inner` over the events that reach it, and the
-- settle task beside it, which takes the outcomes in the order in which they were sent.
use tarsk.Base.{Bool, List, Option, Text, [], ℕ, ◌∷◌}
use tarsk.Supervisor.{BrokerApi, Job, Outcome, Shared}
use tarsk.Wire.{MessagePack}
use tarsk.Base.Float.{Float}
use tarsk.Supervisor.Checking.{Cfg, Meets, Next, Serving, going, leaves, on_child, panicked, parked}
use tarsk.Supervisor.Dispatch.{Child}
use tarsk.Supervisor.Serve.{on_frame, on_spare, on_tick}
use tarsk.Supervisor.Settle.{settle}

pub data Event {fl : Float} (api : BrokerApi fl) : Type 0 where
  -- A frame of the child, or the end of its channel.
  received : Meets api → Option Text → Event api
  ticked : Meets api → Event api
  -- A spawn beside the loop has ended, well or not.
  spawned_spare : (now : ℕ) → Bool → Event api
  -- The settle task takes the next outcome, if there is one.
  settling : (now : ℕ) → Event api
  -- Another task of the supervisor acts on what is shared.
  meanwhile : (Shared api → Shared api) → Event api

module _ {fl : Float} {api : BrokerApi fl} (pack : MessagePack) where
  unfoldable pub settle_next : (now : ℕ) → Shared api → Child api → Shared api × Child api
  settle_next now s child = elim child.to_settle [
    | [] ↦ (s, child)
    | (job, outcome) ∷ rest ↦ (settle pack now job outcome s, record child { to_settle = rest })
  ]

  -- What the settle task still owes when its sender is dropped.
  unfoldable pub settle_all : (now : ℕ) → List (Job api.Acker × Outcome) → Shared api → Shared api
  settle_all now [] s = s
  settle_all now ((job, outcome) ∷ rest) s = settle_all now rest (settle pack now job outcome s)

  unfoldable pub on_event :
      Cfg → Event api → Shared api → Serving api → Next × Shared api × Serving api
  on_event cfg (received w body) s v = on_frame pack cfg w body s v
  on_event cfg (ticked w) s v = on_tick cfg w s v
  on_event cfg (spawned_spare now ready) s v = (going, s, on_spare now ready v)
  on_event cfg (settling now) s v =
      let (after, child) = settle_next now s v.child in (going, after, record v { child = child })
  on_event cfg (meanwhile acts) s v = (going, acts s, v)

  -- The loop over the events that it gets: `going` is a loop that waits for more.
  unfoldable pub serve_inner :
      Cfg → List (Event api) → Shared api → Serving api → Next × Shared api × Serving api
  serve_inner cfg [] s v = (going, s, v)
  serve_inner cfg (e ∷ es) s v =
      let (turn, after, kept) = on_event cfg e s v in
      elim turn [
        | going ↦ serve_inner cfg es after kept
        | parked ↦ (parked, after, kept)
        | panicked ↦ (panicked, after, kept)
        | leaves exit ↦ (leaves exit, after, kept)
      ]

  -- When the loop is left, the outcomes that wait are settled before `serve` returns.
  unfoldable pub serve :
      Cfg
      → List (Event api)
      → (now : ℕ) → Shared api
      → Serving api
      → Next × Shared api × Serving api
  serve cfg es now s v =
      let (turn, after, kept) = serve_inner cfg es s v in
      elim turn [
        | leaves exit ↦ (
          leaves exit,
          settle_all now kept.child.to_settle after,
          on_child (λ child. record child { to_settle = [] }) kept,
        )
        | going ↦ (going, after, kept)
        | parked ↦ (parked, after, kept)
        | panicked ↦ (panicked, after, kept)
      ]
