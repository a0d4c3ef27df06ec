-- ===== src/Supervisor/Slot/Lives.antt =====
-- The loop of `slot` (lib.rs) over the children that it serves one after the other.
use tarsk.Base.{List, Option, [], if◌then◌else◌, none, some, ℕ, ◌++◌, ◌∷◌}
use tarsk.Supervisor.{BrokerApi, Shared}
use tarsk.Wire.{MessagePack}
use tarsk.Base.Float.{Float}
use tarsk.Supervisor.Checking.{Cfg, Serving, going, leaves, panicked, parked}
use tarsk.Supervisor.Loop.{Event, serve}
use tarsk.Supervisor.Slot.{Launch, Leaving, on_exit, spawn_child}

-- What a slot meets while it serves one child: the events of `serve`, the clock when it is left, a
-- replacement that is ready by then, and what it meets when the child is given up.
pub record Life {fl : Float} (api : BrokerApi fl) : Type 0 where
  pub events : List (Event api)
  pub now : ℕ
  pub ready_spare : Option (Serving api)
  pub leaving : Leaving api

-- What a slot has come to: the child that it serves, unless it has returned, and the children that
-- it has left to be drained beside it.
pub record Progress {fl : Float} (api : BrokerApi fl) : Type 0 where
  pub serving : Option (Serving api)
  pub drained_beside : List (Serving api)
  pub shared : Shared api

module _ {fl : Float} {api : BrokerApi fl} where
  abbrev pub left_beside : Option (Serving api) → List (Serving api)
  left_beside none = []
  left_beside (some v) = v ∷ []

  abbrev pub spare_of : Life api → Serving api → Option (Serving api)
  spare_of life v = if v.spare then life.ready_spare else none

module _ {fl : Float} {api : BrokerApi fl} (pack : MessagePack) where
  unfoldable pub slot_loop : Cfg → List (Life api) → Serving api → Shared api → Progress api
  slot_loop cfg [] v s = record { serving = some v; drained_beside = []; shared = s }
  slot_loop cfg (life ∷ lives) v s =
      let (turn, after, kept) = serve pack cfg life.events life.now s v in
      elim turn [
        | going ↦ record { serving = some kept; drained_beside = []; shared = after }
        | parked ↦ record { serving = some kept; drained_beside = []; shared = after }
        | panicked ↦ record { serving = none; drained_beside = []; shared = after }
        | leaves exit ↦
            let turned = on_exit pack cfg life.leaving exit (spare_of life kept) kept after in
            elim turned.current [
              | none ↦ record {
                serving = none;
                drained_beside = left_beside turned.draining;
                shared = turned.shared;
              }
              | some current ↦
                  let later = slot_loop cfg lives current turned.shared in
                  record later {
                    drained_beside = left_beside turned.draining ++ later.drained_beside;
                  }
            ]
      ]

  unfoldable pub slot :
      Cfg → (meets : Shared api → Shared api) → Launch → List (Life api) → Shared api → Progress api
  slot cfg meets launch lives s =
      let (spawned, after) = spawn_child cfg meets launch s in
      elim spawned [
        | none ↦ record { serving = none; drained_beside = []; shared = after }
        | some first ↦ slot_loop cfg lives first after
      ]
