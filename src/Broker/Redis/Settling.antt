-- ===== src/Broker/Redis/Settling.antt =====
-- RedisBroker (broker.rs): acking, handing back, burying, and taking over what is overdue.
use tarsk.Base.{
  Bool, List, Text, [], if◌then◌else◌, keep, length, ltb, max, min, nat_eq, none, ok, some, text, ℕ,
  ◌++◌, ◌+◌, ◌-◌, ◌==◌, ◌^◌, ◌∷◌,
}
use tarsk.Broker.{Receipt, as_millis, redis, stream_key, u32, u64}
use tarsk.Base.Decimal.{decimal}
use tarsk.Broker.Redis.{
  Pending, RedisBroker, RedisClient, Run, StreamId, bytes_field, dead_stream, delivery_of,
  entry_timeout, send, string_field,
}
use tarsk.Broker.Running.{done, fail, ◌>>=◌}
use tarsk.Broker.Redis.Claim.{promote_due}

abbrev pub saturating_u64 : ℕ → ℕ
saturating_u64 n = min n (2 ^ 64 - 1)

-- Where the idle clock of an entry is set, so that it is overdue after the delay.
abbrev pub idle_for : (deadline delay_ms : ℕ) → ℕ
idle_for deadline delay_ms = u64 (deadline - delay_ms + 1)

-- May an entry that is idle for so long be taken over?
abbrev pub is_overdue : (idle deadline : ℕ) → Bool
is_overdue idle deadline = ltb deadline idle

module _ (client : RedisClient) where
  abbrev pub first_timeout : List StreamId → ℕ
  first_timeout [] = 0
  first_timeout (entry ∷ entries) = entry_timeout client entry

  abbrev pub dead_fields : List StreamId → (error traceback : Text) → List (Text × Text)
  dead_fields entries error traceback =
      let outcome = (text "e", error) ∷ (text "tb", traceback) ∷ [] in
      elim entries [
        | [] ↦ (text "n", []) ∷ (text "p", []) ∷ (text "t", decimal 0) ∷ outcome
        | entry ∷ _ ↦
            (text "n", string_field client entry (text "n"))
            ∷ (text "p", bytes_field client entry (text "p"))
            ∷ (text "t", decimal (entry_timeout client entry))
            ∷ outcome
      ]

module _ {client : RedisClient} {Acker : Type 0} where
  unfoldable pub ack : Receipt Acker → Run client Acker (Unit {0})
  ack (redis queue id) = send (client.ack_delete (stream_key queue) id)
  ack _ = fail

  unfoldable pub requeue : Receipt Acker → (delay : ℕ) → Run client Acker (Unit {0})
  requeue (redis queue id) delay = do
    entries ← send (client.range_one (stream_key queue) id)
    λ b.
        let deadline = u64 (first_timeout client entries + b.grace_ms) in
        send
          (client.set_idle (stream_key queue) b.consumer id
            (idle_for deadline (u64 (as_millis delay))))
          b
  requeue _ delay = fail

  unfoldable pub dead_letter :
      Receipt Acker → (error traceback : Text) → (keep : ℕ) → Run client Acker (Unit {0})
  dead_letter (redis queue id) error traceback keep = do
    entries ← send (client.range_one (stream_key queue) id)
    send (
        client.bury_entry (dead_stream queue) (stream_key queue) id
          (if keep == 0 then none else some keep) (dead_fields client entries error traceback))
  dead_letter _ error traceback keep = fail

  -- One overdue entry that this broker won: it waits in the buffer, one attempt further.
  abbrev pub buffer_entry :
      (now : ℕ)
      → (queue : Text) → Pending
      → StreamId
      → RedisBroker client Acker
      → RedisBroker client Acker
  buffer_entry now queue candidate entry b = record b {
    claimed =
        b.claimed
        ++ (
          delivery_of client queue candidate.id (u32 (candidate.times_delivered + 1)) entry,
          now,
          max (entry_timeout client entry) 1,
        )
          ∷ [];
  }

  abbrev pub take_won :
      (now : ℕ) → (queue : Text) → Pending → StreamId → (won : List Text) → Run client Acker ℕ
  take_won now queue candidate entry [] b = (ok 0, b)
  take_won now queue candidate entry (_ ∷ _) b = (ok 1, buffer_entry now queue candidate entry b)

  -- The server gives the entry to whoever asks first.
  abbrev pub take_over :
      (deadline now : ℕ) → (queue : Text) → Pending → StreamId → Run client Acker ℕ
  take_over deadline now queue candidate entry b =
      (send (client.claim_idle (stream_key queue) b.consumer deadline candidate.id)
          >>= take_won now queue candidate entry)
        b

  abbrev pub reclaim_entry :
      (grace_ms now : ℕ) → (queue : Text) → Pending → List StreamId → Run client Acker ℕ
  reclaim_entry grace_ms now queue candidate [] = done 0
  reclaim_entry grace_ms now queue candidate (entry ∷ _) =
      let deadline = u64 (entry_timeout client entry + grace_ms) in
      if is_overdue candidate.last_delivered_ms deadline
      then take_over deadline now queue candidate entry
      else done 0

  -- `grace_ms` is the slack; the number says how many entries were taken over, none or one.
  unfoldable pub reclaim_one : (grace_ms now : ℕ) → (queue : Text) → Pending → Run client Acker ℕ
  unfolding delivery_of
  reclaim_one grace_ms now queue candidate = do
    entries ← send (client.range_one (stream_key queue) candidate.id)
    reclaim_entry grace_ms now queue candidate entries

  -- `now` is read at each entry that is taken over.
  unfoldable pub reclaim_some :
      (grace_ms : ℕ) → (times : ℕ → ℕ) → (queue : Text) → List Pending → Run client Acker ℕ
  unfolding reclaim_one
  reclaim_some grace_ms times queue [] = done 0
  reclaim_some grace_ms times queue (candidate ∷ rest) = do
    taken ← reclaim_one grace_ms (times (length rest)) queue candidate
    others ← reclaim_some grace_ms times queue rest
    done (taken + others)

  unfoldable pub reclaim_queues :
      (floor grace_ms : ℕ) → (times : ℕ → ℕ → ℕ) → List Text → Run client Acker ℕ
  unfolding reclaim_some
  reclaim_queues floor grace_ms times [] = done 0
  reclaim_queues floor grace_ms times (queue ∷ queues) = do
    candidates ← send (client.pending (stream_key queue) floor 64)
    taken ← reclaim_some grace_ms (times (length queues)) queue candidates
    others ← reclaim_queues floor grace_ms times queues
    done (taken + others)

  unfoldable pub reclaim_expired : (grace : ℕ) → (times : ℕ → ℕ → ℕ) → Run client Acker ℕ
  unfolding reclaim_queues
  reclaim_expired grace times b =
      let grace_ms = u64 (as_millis grace) in
      let learned = record b { grace_ms = grace_ms } in
      if b.min_timeout_ms == 2 ^ 64 - 1
      then (ok 0, learned)
      else reclaim_queues (saturating_u64 (b.min_timeout_ms + grace_ms)) grace_ms times b.queues
          learned

  -- `Broker::reclaim_expired`: what is due comes first, then what is overdue.
  unfoldable pub sweep : (grace : ℕ) → (times : ℕ → ℕ) → (later : ℕ → ℕ → ℕ) → Run client Acker ℕ
  unfolding promote_due reclaim_expired
  sweep grace times later = do
    promoted ← promote_due times
    reclaimed ← reclaim_expired grace later
    done (reclaimed + promoted)
