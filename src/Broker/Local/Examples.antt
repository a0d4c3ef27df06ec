-- ===== src/Broker/Local/Examples.antt =====
-- Tests of `LocalCoordination`, and its theorems at concrete inputs.
use tarsk.Base.{
  Text, [], arith, contains, false, length, pair_eq, refl, text, text_eq, true, ◌<◌, ◌==◌, ◌↔◌, ◌∷◌,
  ◌≡◌, ◌≤◌,
}
use tarsk.Base.Dict.{lookup}
use tarsk.Base.Fixed.{thousandths}
use tarsk.Base.Int.{int_eq, pos, ℤ}
use tarsk.Broker.Local.{LocalCoordination, acquire_slot, held_by}
use tarsk.Broker.Running.{after}
use tarsk.Broker.Local.Slots.{acquire_slot_contract, running}
use tarsk.Broker.Local.Ticks.{claim_tick_once, claims, wins}

abbrev idle : LocalCoordination thousandths
idle = record { ticks = []; buckets = []; slots = [] }

-- Two embeds hold slots until 5 s and 9 s.
abbrev busy : LocalCoordination thousandths
busy = record idle {
  slots = (text "embed", (text "a", 5000000000) ∷ (text "b", 9000000000) ∷ []) ∷ [];
}

busy-refused : (acquire_slot (text "embed") (text "c") 2 1000 1000000000 busy).1 ≡ false
unfolding acquire_slot lookup
busy-refused = refl

acquire_slot_contract_example :
    let (after, granted) = acquire_slot (text "embed") (text "c") 2 1000 6000000000 busy in
    ((granted ≡ true) ↔ (length (running 6000000000 (text "embed") busy) < 2))
    × (length (held_by (text "embed") after) ≤ 2)
    × ((text "embed" == text "embed") ≡ false
        → held_by (text "embed") after ≡ held_by (text "embed") busy)
unfolding lookup
acquire_slot_contract_example =
    acquire_slot_contract (text "embed") (text "c") (text "embed") 2 1000 6000000000 busy
      (omega arith)

abbrev noon : Text × ℤ
noon = (text "report", pos 29777344)

claim_tick_once_example :
    wins noon
      (noon ∷ (text "other", pos 29777344) ∷ noon ∷ [])
      (claims (noon ∷ (text "other", pos 29777344) ∷ noon ∷ []) idle)
    ≡ 1
unfolding lookup contains
claim_tick_once_example =
    claim_tick_once noon (noon ∷ (text "other", pos 29777344) ∷ noon ∷ []) idle refl
