-- ===== src/Broker/Local/Ticks.antt =====
-- The cron ticks of `LocalCoordination`: the election of one worker for each task and minute.
-- How often `key` was won in the attempts `keys` with the answers `won`.
use tarsk.Base.{
  Bool, Bool-cases, Eq, List, Text, [], ap, arith, contains, false, if◌then◌else◌, inl, inr,
  pair_eq, refl, suc, text_eq, ℕ, ◌&&◌, ◌==◌, ◌∷◌, ◌≡◌,
}
use tarsk.Base.Dict.{Dict, contains_key, insert, lookup-insert, set_insert}
use tarsk.Base.Float.{Float}
use tarsk.Base.Int.{int_eq, ℤ}
use tarsk.Broker.Local.{LocalCoordination, claim_tick}
use tarsk.Broker.Running.{after}

pub wins {ℓ} : {K : Type ℓ} ⦃e : Eq K⦄ → K → List K → List Bool → ℕ
wins key [] won = 0
wins key (k ∷ keys) [] = 0
wins key (k ∷ keys) (w ∷ won) =
    let rest = wins key keys won in if (k == key) && w then suc rest else rest

module _ {ℓ} {K : Type ℓ} ⦃e : Eq K⦄ where
  set_inserts : List K → Dict K (Unit {0}) → List Bool
  set_inserts [] s = []
  set_inserts (k ∷ keys) s = let (after, won) = set_insert k s in won ∷ set_inserts keys after

  wins-set_inserts :
      (key : K) (keys : List K) (s : Dict K (Unit {0}))
      → wins key keys (set_inserts keys s)
        ≡ (if contains_key key s then 0 else if contains keys key then 1 else 0)
  unfolding wins set_inserts contains
  wins-set_inserts key [] s = ground arith
  wins-set_inserts key (k ∷ keys) s = elim (Bool-cases (contains_key k s)) [
    | inl old ↦ rw old (
        ground (
          arith,
          old,
          wins-set_inserts key keys s,
          e.beq_iff k key,
          λ (q : k ≡ key). ap (λ x. contains_key x s) q,
        ))
    | inr new ↦ rw new (
        ground (
          arith,
          new,
          wins-set_inserts key keys (insert k tt s),
          lookup-insert k key tt s,
          e.beq_iff k key,
          λ (q : k ≡ key). ap (λ x. contains_key x s) q,
        ))
  ]

module _ {fl : Float} where
  -- What a process answers to a sequence of attempts, oldest first.
  pub claims : List (Text × ℤ) → LocalCoordination fl → List Bool
  claims [] c = []
  claims (k ∷ rest) c = let (after, won) = claim_tick k.0 k.1 c in won ∷ claims rest after

  claims-eq-set_inserts :
      (keys : List (Text × ℤ)) (c : LocalCoordination fl) → claims keys c ≡ set_inserts keys c.ticks
  unfolding claims set_inserts claim_tick
  claims-eq-set_inserts [] c = refl
  claims-eq-set_inserts (k ∷ keys) c =
      ap (◌∷◌ (set_insert k c.ticks).1)
        (claims-eq-set_inserts keys (record c { ticks = (set_insert k c.ticks).0 }))

  -- Over any sequence of attempts on a process that has not fired this task for this minute, one
  -- attempt wins it if there is any, and no second one does.
  pub claim_tick_once :
      (key : Text × ℤ) (keys : List (Text × ℤ)) (c : LocalCoordination fl)
      → contains_key key c.ticks ≡ false
      → wins key keys (claims keys c) ≡ (if contains keys key then 1 else 0)
  claim_tick_once key keys c fresh =
      rw (claims-eq-set_inserts keys c, wins-set_inserts key keys c.ticks, fresh)
