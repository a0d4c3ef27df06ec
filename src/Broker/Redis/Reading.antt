-- ===== src/Broker/Redis/Reading.antt =====
-- RedisBroker (broker.rs): every entry of a read is handed out or held.
use mathlib.Core.List.{append-nil, append_assoc}
use tarsk.Base.{
  List, Option, Res, Text, [], ap, arith, map, max, min, none, ok, refl, some, sym, ℕ, ◌*◌, ◌++◌,
  ◌∙◌, ◌∷◌, ◌≡◌,
}
use tarsk.Broker.{Delivery, u32, u64}
use tarsk.Base.Dict.{or_else}
use tarsk.Broker.Redis.{
  Held, RedisBroker, RedisClient, StreamId, StreamKey, delivery_of, entry_timeout, queue_of,
}
use tarsk.Broker.Redis.Claim.{hand_out, paced, take_entry, take_ids, take_keys}

-- What goes out and what waits, of the deliveries of a read.
abbrev pub head_of :
    {Acker : Type 0} → Option (Delivery Acker) → List (Held Acker) → Option (Delivery Acker)
head_of (some d) held = some d
head_of none [] = none
head_of none (h ∷ held) = some h.0

abbrev pub rest_of :
    {Acker : Type 0} → Option (Delivery Acker) → List (Held Acker) → List (Held Acker)
rest_of (some d) held = held
rest_of none [] = []
rest_of none (h ∷ held) = held

head_of-append :
    {Acker : Type 0} (first : Option (Delivery Acker)) (xs ys : List (Held Acker))
    → head_of (head_of first xs) ys ≡ head_of first (xs ++ ys)
head_of-append (some d) xs ys = refl
head_of-append none [] ys = refl
head_of-append none (x ∷ xs) ys = refl

rest_of-append :
    {Acker : Type 0} (first : Option (Delivery Acker)) (xs ys : List (Held Acker))
    → rest_of first xs ++ rest_of (head_of first xs) ys ≡ rest_of first (xs ++ ys)
rest_of-append (some d) xs ys = refl
rest_of-append none [] ys = refl
rest_of-append none (x ∷ xs) ys = refl

abbrev pub held_of :
    {Acker : Type 0} → (client : RedisClient) → (now : ℕ) → (queue : Text) → StreamId → Held Acker
held_of client now queue entry = (
  delivery_of client queue entry.id (u32 (or_else 1 entry.delivered_count)) entry,
  now,
  max (entry_timeout client entry) 1,
)

-- The entries of a reply, as deliveries in the order of the reply.
abbrev pub all_of :
    {Acker : Type 0} → (client : RedisClient) → (now : ℕ) → List StreamKey → List (Held Acker)
all_of client now [] = []
all_of client now (k ∷ keys) =
    map (held_of client now (queue_of k.key)) k.ids ++ all_of client now keys

module _ {client : RedisClient} {Acker : Type 0} where
  -- From `b`, the deliveries were taken: one out, if none was yet, the others behind the buffer.
  abbrev Taken :
      (first : Option (Delivery Acker)) (held : List (Held Acker)) (b : RedisBroker client Acker)
      → Option (Delivery Acker) × RedisBroker client Acker
      → Type 0
  Taken first held b r =
      (r.0 ≡ head_of first held)
      × (r.1.claimed ≡ b.claimed ++ rest_of first held)
      × (r.1.prefetch ≡ b.prefetch)
      × (r.1.prefetch_cap ≡ b.prefetch_cap)

  take_entry-Taken :
      (now : ℕ) (queue : Text) (entry : StreamId) (first : Option (Delivery Acker))
      (b : RedisBroker client Acker)
      → Taken first (held_of client now queue entry ∷ []) b (take_entry now queue entry first b)
  unfolding take_entry
  take_entry-Taken now queue entry none b = (refl, sym (append-nil b.claimed), refl, refl)
  take_entry-Taken now queue entry (some d) b = (refl, refl, refl, refl)

  Taken-append :
      (first : Option (Delivery Acker)) (xs ys : List (Held Acker)) (b : RedisBroker client Acker)
      (r q : Option (Delivery Acker) × RedisBroker client Acker)
      → Taken first xs b r
      → Taken r.0 ys r.1 q
      → Taken first (xs ++ ys) b q
  Taken-append first xs ys b r q (out, wait, pace, limit) (out_, wait_, pace_, limit_) = (
    out_ ∙ ap (λ f. head_of f ys) out ∙ head_of-append first xs ys,
    wait_
        ∙ ap (λ c. c ++ rest_of r.0 ys) wait
        ∙ ap (λ f. (b.claimed ++ rest_of first xs) ++ rest_of f ys) out
        ∙ append_assoc b.claimed (rest_of first xs) (rest_of (head_of first xs) ys)
        ∙ ap (λ c. b.claimed ++ c) (rest_of-append first xs ys),
    pace_ ∙ pace,
    limit_ ∙ limit,
  )

  take_ids-Taken :
      (now : ℕ) (queue : Text) (ids : List StreamId) (first : Option (Delivery Acker))
      (b : RedisBroker client Acker)
      → Taken first (map (held_of client now queue) ids) b (take_ids now queue ids first b)
  unfolding take_ids
  take_ids-Taken now queue [] none b = (refl, sym (append-nil b.claimed), refl, refl)
  take_ids-Taken now queue [] (some d) b = (refl, sym (append-nil b.claimed), refl, refl)
  take_ids-Taken now queue (entry ∷ ids) first b =
      let one = take_entry now queue entry first b in
      Taken-append first (held_of client now queue entry ∷ []) (map (held_of client now queue) ids)
        b one (take_ids now queue ids one.0 one.1) (take_entry-Taken now queue entry first b)
        (take_ids-Taken now queue ids one.0 one.1)

  take_keys-Taken :
      (now : ℕ) (keys : List StreamKey) (first : Option (Delivery Acker))
      (b : RedisBroker client Acker)
      → Taken first (all_of client now keys) b (take_keys now keys first b)
  unfolding take_keys
  take_keys-Taken now [] none b = (refl, sym (append-nil b.claimed), refl, refl)
  take_keys-Taken now [] (some d) b = (refl, sym (append-nil b.claimed), refl, refl)
  take_keys-Taken now (k ∷ keys) first b =
      let queue = queue_of k.key in
      let some_taken = take_ids now queue k.ids first b in
      Taken-append first (map (held_of client now queue) k.ids) (all_of client now keys) b
        some_taken (take_keys now keys some_taken.0 some_taken.1)
        (take_ids-Taken now queue k.ids first b)
        (take_keys-Taken now keys some_taken.0 some_taken.1)

  -- What becomes of the deliveries of a read.
  abbrev pub HandedOut :
      (held : List (Held Acker)) (b : RedisBroker client Acker)
      → Res (Option (Delivery Acker)) × RedisBroker client Acker
      → Type 0
  HandedOut held b r = elim held [
    | [] ↦ (r.0 ≡ ok none) × (r.1.claimed ≡ b.claimed) × (r.1.prefetch ≡ b.prefetch)
    | h ∷ waiting ↦
        (r.0 ≡ ok (some h.0))
        × (r.1.claimed ≡ b.claimed ++ waiting)
        × (r.1.prefetch ≡ min (u64 (b.prefetch * 2)) (max b.prefetch_cap 1))
  ]

  finish :
      (held : List (Held Acker)) (b : RedisBroker client Acker)
      (taken : Option (Delivery Acker) × RedisBroker client Acker)
      → Taken none held b taken
      → HandedOut held b (paced taken)
  finish [] b (none, c) (out, wait, pace, limit) = (refl, wait ∙ append-nil b.claimed, pace)
  finish [] b (some d, c) (out, wait, pace, limit) = absurd (ground (arith, out))
  finish (h ∷ waiting) b (none, c) (out, wait, pace, limit) = absurd (ground (arith, out))
  finish (h ∷ waiting) b (some d, c) (out, wait, pace, limit) = (
    ap ok out,
    wait,
    ap (λ n. min (u64 (n * 2)) (max c.prefetch_cap 1)) pace
        ∙ ap (λ n. min (u64 (b.prefetch * 2)) (max n 1)) limit,
  )

  -- Every entry that a read returned is accounted for, in the order of the reply: the first is
  -- handed out, and each other waits at the end of the buffer, with its own timeout as the time it
  -- may wait. A read that returned something doubles the batch of the next, up to the cap, and one
  -- that did not leaves the buffer and the batch as they were.
  pub hand_out-all :
      (now : ℕ) (keys : List StreamKey) (b : RedisBroker client Acker)
      → HandedOut (all_of client now keys) b (hand_out now keys b)
  unfolding hand_out
  hand_out-all now keys b =
      finish (all_of client now keys) b (take_keys now keys none b)
        (take_keys-Taken now keys none b)
