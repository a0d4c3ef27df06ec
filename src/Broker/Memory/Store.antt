-- ===== src/Broker/Memory/Store.antt =====
-- Results and cancellations of the in-memory broker.
use tarsk.Base.{
  List, Text, [], arith, contains, false, if◌then◌else◌, keep, ltb, map, none, some, text_eq, ℕ,
  ◌+◌, ◌==◌, ◌∷◌, ◌≡◌, ◌≤◌,
}
use tarsk.Broker.{from_millis}
use tarsk.Base.Dict.{Dict, insert, lookup-insert, lookup-remove, remove}
use tarsk.Base.Float.{Float}
use tarsk.Broker.Memory.{MemoryBroker, get_result, revoke, revoked, store_result}

abbrev names_running : ℕ → Dict Text ℕ → List Text
names_running now held = map (λ entry. entry.0) (keep (λ entry. ltb now entry.1) held)

contains-remove :
    (id who : Text) (now : ℕ) (held : Dict Text ℕ)
    → contains (names_running now (remove id held)) who
      ≡ (if id == who then false else contains (names_running now held) who)
unfolding contains remove
contains-remove id who now [] = ground arith
contains-remove id who now ((j, t) ∷ held) = ground (
  arith,
  text_eq.beq_iff id who,
  text_eq.beq_iff j id,
  text_eq.beq_iff j who,
  contains-remove id who now held,
)

module _ {fl : Float} where
  -- What `store_result` files under an id is what `get_result` answers until the time to live has
  -- passed, and no longer; every other id is answered as if nothing had been filed.
  get_result-store_result :
      (id who blob : Text) (ttl stored now : ℕ) (b : MemoryBroker fl)
      → (get_result who now (store_result id blob ttl stored b)).1 ≡ (
          if id == who
          then (if ltb now (stored + ttl) then some blob else none)
          else (get_result who now b).1)
  unfolding get_result store_result
  get_result-store_result id who blob ttl stored now b =
      ground (arith, lookup-insert id who (blob, stored + ttl) b.results)

  -- Reading never changes what a later reading at the same time or after it answers.
  pub get_result-get_result :
      (id who : Text) (now later : ℕ) (b : MemoryBroker fl)
      → now ≤ later
      → (get_result who later (get_result id now b).0).1 ≡ (get_result who later b).1
  unfolding get_result
  get_result-get_result id who now later b h =
      ground (arith, text_eq.beq_iff id who, lookup-remove id who b.results)

  -- An id is reported as cancelled exactly while its cancellation lasts, and a cancellation
  -- changes the answer for no other id.
  revoked-revoke :
      (id who : Text) (ttl_ms at now : ℕ) (b : MemoryBroker fl)
      → contains (revoked now (revoke id ttl_ms at b)).1 who
        ≡ (if id == who then ltb now (at + from_millis ttl_ms) else contains (revoked now b).1 who)
  unfolding revoked revoke insert contains
  revoked-revoke id who ttl_ms at now b = ground (arith, contains-remove id who now b.revoked_until)
