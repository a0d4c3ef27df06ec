-- ===== src/Broker/Redis/Listing.antt =====
-- RedisBroker (broker.rs): dead letters, depth, results, deduplication, ticks and revocations.
use tarsk.Base.{
  Bool, List, Option, Text, [], contains, err, if◌then◌else◌, leb, length, map, max, none, ok, some,
  text, text_eq, ℕ, ◌*◌, ◌++◌, ◌+◌, ◌-◌, ◌||◌, ◌∷◌,
}
use tarsk.Broker.{Dead, Depth, as_millis, result_key, stream_key, u64}
use tarsk.Base.Decimal.{decimal}
use tarsk.Base.Dict.{lookup, or_else}
use tarsk.Base.Int.{negsuc, pos, ℤ}
use tarsk.Broker.Redis.{
  RedisClient, Run, StreamId, bytes_field, dead_stream, delayed_key, entry_timeout, send,
  stream_id_ms, string_field,
}
use tarsk.Broker.Running.{done, ◌>>=◌}

abbrev pub dedup_key : (key : Text) → Text
dedup_key key = text "tarsk:dedup:" ++ key

abbrev pub revoked_key : (queue : Text) → Text
revoked_key queue = stream_key queue ++ text ":revoked"

abbrev pub signed_decimal : ℤ → Text
signed_decimal (pos n) = decimal n
signed_decimal (negsuc n) = text "-" ++ decimal (n + 1)

abbrev pub tick_key : (name : Text) → (minute : ℤ) → Text
tick_key name minute = text "tarsk:cron:" ++ name ++ text ":" ++ signed_decimal minute

abbrev pub is_asked : (ids : List Text) → StreamId → Bool
is_asked ids entry = leb (length ids) 0 || contains ids entry.id

abbrev pub onto_front : List Dead → List Dead → List Dead
onto_front [] out = out
onto_front (row ∷ rows) out = onto_front rows (row ∷ out)

module _ (client : RedisClient) where
  abbrev pub dead_row : StreamId → Dead
  dead_row entry = record {
    id = entry.id;
    name = string_field client entry (text "n");
    error = string_field client entry (text "e");
    traceback = string_field client entry (text "tb");
    died_at_ms = stream_id_ms entry.id;
  }

  -- The id of the job, or that of the entry where there is none.
  abbrev pub replayed_id : StreamId → Text
  replayed_id entry = elim (lookup (text "i") entry.map) [
    | none ↦ entry.id
    | some v ↦ or_else entry.id (client.as_string v)
  ]

  abbrev pub replayed_fields : StreamId → List (Text × Text)
  replayed_fields entry =
      (text "n", string_field client entry (text "n"))
      ∷ (text "p", bytes_field client entry (text "p"))
      ∷ (text "t", decimal (entry_timeout client entry))
      ∷ (text "i", replayed_id entry)
      ∷ []

module _ {client : RedisClient} {Acker : Type 0} where
  -- The newest come first from the server, and are listed last.
  unfoldable pub dead_list : (queue : Text) → (limit : ℕ) → Run client Acker (List Dead)
  dead_list queue limit = do
    entries ← send (client.newest (dead_stream queue) limit)
    done (onto_front (map (dead_row client) entries) [])

  unfoldable pub replay_some :
      (queue : Text) → (ids : List Text) → List StreamId → Run client Acker ℕ
  replay_some queue ids [] = done 0
  replay_some queue ids (entry ∷ entries) =
      let rest = replay_some queue ids entries in
      if is_asked ids entry
      then (do
        _ ← send (
            client.add_delete (stream_key queue) (replayed_fields client entry) (dead_stream queue)
              entry.id)
        moved ← rest
        done (moved + 1))
      else rest

  unfoldable pub dead_replay : (queue : Text) → (ids : List Text) → Run client Acker ℕ
  unfolding replay_some
  dead_replay queue ids = do
    entries ← send (client.range_all (dead_stream queue))
    replay_some queue ids entries

  unfoldable pub dead_purge : (queue : Text) → (ids : List Text) → Run client Acker ℕ
  dead_purge queue [] = do
    n ← send (client.stream_length (dead_stream queue))
    _ ← send (client.delete_key (dead_stream queue))
    done n
  dead_purge queue (id ∷ ids) = send (client.delete_entries (dead_stream queue) (id ∷ ids))

  -- A failed XPENDING, as where nothing was ever sent to the queue, counts as nothing in flight.
  unfoldable pub in_flight_of : (queue : Text) → Run client Acker ℕ
  in_flight_of queue b =
      let (answer, server) = client.pending_count (stream_key queue) b.server in
      (ok (elim answer [ ok n ↦ n | err ↦ 0 ]), record b { server = server })

  unfoldable pub depth : (queues : List Text) → Run client Acker (List Depth)
  unfolding in_flight_of
  depth [] = done []
  depth (queue ∷ queues) = do
    counts ← send (client.counts (stream_key queue) (dead_stream queue) (delayed_key queue))
    in_flight ← in_flight_of queue
    rows ← depth queues
    done (
        record {
          queue = queue;
          ready = counts.0 - in_flight;
          in_flight = in_flight;
          delayed = counts.2;
          dead = counts.1;
        }
        ∷ rows)

  unfoldable pub store_result : (id blob : Text) → (ttl : ℕ) → Run client Acker (Unit {0})
  store_result id blob ttl = send (client.set_px (result_key id) blob (u64 (max (as_millis ttl) 1)))

  unfoldable pub get_result : (id : Text) → Run client Acker (Option Text)
  get_result id = send (client.get_value (result_key id))

  -- Whoever writes the key first owns the window; the answer is who else holds it.
  unfoldable pub claim_dedup : (key job_id : Text) → (ttl_ms : ℕ) → Run client Acker (Option Text)
  claim_dedup key job_id ttl_ms = do
    won ← send (client.set_if_absent (dedup_key key) job_id (max ttl_ms 1))
    if won then done none else send (client.get_value (dedup_key key))

  -- The key lives for two minutes.
  unfoldable pub claim_tick : (name : Text) → (minute : ℤ) → Run client Acker Bool
  claim_tick name minute =
      send (client.set_if_absent (tick_key name minute) (text "1") (120 * 1000))

  unfoldable pub revoke : (now : ℕ) → (queue id : Text) → (ttl_ms : ℕ) → Run client Acker (Unit {0})
  revoke now queue id ttl_ms = send (client.add_scored (revoked_key queue) (u64 (now + ttl_ms)) id)

  unfoldable pub revoked : (now : ℕ) → (queue : Text) → Run client Acker (List Text)
  revoked now queue = send (client.live_members (revoked_key queue) now)

  -- `Broker::revoked_all`, over the queues that this broker was opened on. `times` reads the clock.
  unfoldable pub revoked_in : (times : ℕ → ℕ) → List Text → Run client Acker (List Text)
  unfolding revoked
  revoked_in times [] = done []
  revoked_in times (queue ∷ queues) = do
    ids ← revoked (times (length queues)) queue
    others ← revoked_in times queues
    done (ids ++ others)

  unfoldable pub revoked_all : (times : ℕ → ℕ) → Run client Acker (List Text)
  unfolding revoked_in
  revoked_all times b = revoked_in times b.queues b

  unfoldable pub release_slot : (task job_id : Text) → Run client Acker (Unit {0})
  release_slot task job_id = send (client.remove_member (text "tarsk:slots:" ++ task) job_id)
