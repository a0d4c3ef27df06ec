-- ===== src/Broker/Redis/Claim.antt =====
-- RedisBroker (broker.rs): pushing, and claiming from the buffer and the streams.
use tarsk.Base.{
  Bool, List, Option, Res, Text, [], false, if◌then◌else◌, leb, length, ltb, map, max, min, nat_eq,
  none, ok, some, text, ℕ, ◌*◌, ◌++◌, ◌+◌, ◌-◌, ◌/◌, ◌==◌, ◌||◌, ◌∷◌,
}
use tarsk.Broker.{Delivery, NewJob, as_millis, stream_key, u32, u64}
use tarsk.Base.Decimal.{decimal}
use tarsk.Base.Dict.{or_else}
use tarsk.Broker.Redis.{
  Held, RedisBroker, RedisClient, Run, StreamId, StreamKey, delayed_key, delivery_of, entry_timeout,
  queue_of, send,
}
use tarsk.Broker.Running.{done, when_found, ◌>>=◌}

-- The fields of a job.
abbrev pub job_fields : NewJob → List (Text × Text)
job_fields job =
    (text "n", job.name)
    ∷ (text "p", job.payload)
    ∷ (text "t", decimal job.timeout_ms)
    ∷ (text "i", job.id)
    ∷ (text "c", job.chain)
    ∷ (text "m", job.meta)
    ∷ (text "x", decimal job.expires_ms)
    ∷ []

-- `claimed_at.elapsed().as_millis()` against the deadline.
abbrev pub is_late : (now claimed_at deadline_ms : ℕ) → Bool
is_late now claimed_at deadline_ms = leb deadline_ms (u64 (as_millis (now - claimed_at)))

-- The loop over the buffer: what has waited too long is dropped, and the batch of the next read
-- is halved each time. `times` reads the clock, by the number of deliveries behind.
unfoldable pub next_held :
    {Acker : Type 0}
    → (times : ℕ → ℕ) → List (Held Acker)
    → (prefetch : ℕ) → Option (Delivery Acker) × List (Held Acker) × ℕ
next_held times [] prefetch = (none, [], prefetch)
next_held times ((d, claimed_at, deadline_ms) ∷ behind) prefetch =
    let skip = next_held times behind (max (prefetch / 2) 1) in
    if is_late (times (length behind)) claimed_at deadline_ms
    then skip
    else (some d, behind, prefetch)

-- `fetch_min` of the timeout, where there is one.
abbrev pub lower_timeout : (timeout_ms min_timeout_ms : ℕ) → ℕ
lower_timeout timeout_ms min_timeout_ms =
    if ltb 0 timeout_ms then min min_timeout_ms timeout_ms else min_timeout_ms

-- The milliseconds of BLOCK; a read that does not wait sends none.
abbrev pub wait_of : (block : Option ℕ) → Option ℕ
wait_of none = none
wait_of (some d) = some (u64 (max (as_millis d) 1))

abbrev pub has_entries : List StreamKey → Bool
has_entries [] = false
has_entries (k ∷ keys) = ltb 0 (length k.ids) || has_entries keys

module _ {client : RedisClient} {Acker : Type 0} where
  -- `pid` is the id of the process.
  unfoldable pub push : (pid now : ℕ) → NewJob → (delay : ℕ) → Run client Acker (Unit {0})
  push pid now job delay b =
      let member = decimal pid ++ text "-" ++ decimal b.next_delayed in
      let later = record b { next_delayed = u64 (b.next_delayed + 1) } in
      if delay == 0
      then send (client.add (stream_key job.queue) (job_fields job)) b
      else send
          (client.add_delayed (delayed_key job.queue) member (u64 (now + u64 (as_millis delay)))
            (job_fields job))
          later

  -- `times` reads the clock, once for each queue.
  unfoldable pub promote_all : (times : ℕ → ℕ) → List Text → Run client Acker ℕ
  promote_all times [] = done 0
  promote_all times (queue ∷ queues) = do
    moved ← send (client.promote (delayed_key queue) (stream_key queue) (times (length queues)) 128)
    others ← promote_all times queues
    done (moved + others)

  unfoldable pub promote_due : (times : ℕ → ℕ) → Run client Acker ℕ
  unfolding promote_all
  promote_due times b = promote_all times b.queues b

  unfoldable pub read_streams :
      List Text → (batch : ℕ) → (block : Option ℕ) → Run client Acker (Option (List StreamKey))
  read_streams queues batch block b =
      send (client.read_group b.consumer batch (wait_of block) (map stream_key queues)) b

  -- Each queue is asked in turn, without waiting, for the first that has anything.
  unfoldable pub probe : List Text → (batch : ℕ) → Run client Acker (Option (List StreamKey))
  unfolding read_streams
  probe [] batch = done none
  probe (queue ∷ queues) batch = do
    reply ← read_streams (queue ∷ []) batch none
    when_found reply (probe queues batch)
        λ keys. if has_entries keys then done (some keys) else probe queues batch

  unfoldable pub read_in_order : (batch block : ℕ) → Run client Acker (Option (List StreamKey))
  unfolding probe read_streams
  read_in_order batch block b =
      (do
        first ← (if ltb 1 (length b.queues) then probe b.queues batch else done none)
        when_found first (read_streams b.queues batch (if block == 0 then none else some block))
            λ keys. done (some keys))
        b

  -- One entry of a reply: the first is handed out, every other waits in the buffer.
  unfoldable pub take_entry :
      (now : ℕ)
      → (queue : Text) → StreamId
      → Option (Delivery Acker)
      → RedisBroker client Acker
      → Option (Delivery Acker) × RedisBroker client Acker
  unfolding delivery_of
  take_entry now queue entry first b =
      let timeout_ms = entry_timeout client entry in
      let seen = record b { min_timeout_ms = lower_timeout timeout_ms b.min_timeout_ms } in
      let d = delivery_of client queue entry.id (u32 (or_else 1 entry.delivered_count)) entry in
      elim first [
        | none ↦ (some d, seen)
        | some e ↦ (some e, record seen { claimed = b.claimed ++ (d, now, max timeout_ms 1) ∷ [] })
      ]

  unfoldable pub take_ids :
      (now : ℕ)
      → (queue : Text) → List StreamId
      → Option (Delivery Acker)
      → RedisBroker client Acker
      → Option (Delivery Acker) × RedisBroker client Acker
  unfolding take_entry
  take_ids now queue [] first b = (first, b)
  take_ids now queue (entry ∷ ids) first b =
      let (next, after_one) = take_entry now queue entry first b in
      take_ids now queue ids next after_one

  unfoldable pub take_keys :
      (now : ℕ)
      → List StreamKey
      → Option (Delivery Acker)
      → RedisBroker client Acker
      → Option (Delivery Acker) × RedisBroker client Acker
  unfolding take_ids
  take_keys now [] first b = (first, b)
  take_keys now (k ∷ keys) first b =
      let (next, after_one) = take_ids now (queue_of k.key) k.ids first b in
      take_keys now keys next after_one

  abbrev pub paced :
      Option (Delivery Acker) × RedisBroker client Acker
      → Res (Option (Delivery Acker)) × RedisBroker client Acker
  paced (none, b) = (ok none, b)
  paced (some d, b) =
      (ok (some d), record b { prefetch = min (u64 (b.prefetch * 2)) (max b.prefetch_cap 1) })

  -- What a read returned: one delivery goes out, and the next read may ask for more.
  unfoldable pub hand_out : (now : ℕ) → List StreamKey → Run client Acker (Option (Delivery Acker))
  unfolding take_keys
  hand_out now keys b = paced (take_keys now keys none b)

  -- `times` reads the clock for the buffer, `now` after the read.
  unfoldable pub claim :
      (times : ℕ → ℕ) → (now block : ℕ) → Run client Acker (Option (Delivery Acker))
  unfolding next_held read_in_order hand_out
  claim times now block b =
      let (held, behind, prefetch) = next_held times b.claimed b.prefetch in
      let rest = record b { claimed = behind; prefetch = prefetch } in
      elim held [
        | some d ↦ (ok (some d), rest)
        | none ↦
            (read_in_order (max prefetch 1) block >>= λ reply.
            when_found reply (done none) (hand_out now))
              rest
      ]

  abbrev pub set_prefetch_cap : (children : ℕ) → RedisBroker client Acker → RedisBroker client Acker
  set_prefetch_cap children b = record b { prefetch_cap = max (u64 children) 1 }

  abbrev pub observe_min_timeout :
      (timeout_ms : ℕ) → RedisBroker client Acker → RedisBroker client Acker
  observe_min_timeout timeout_ms b = record b { min_timeout_ms = min b.min_timeout_ms timeout_ms }
