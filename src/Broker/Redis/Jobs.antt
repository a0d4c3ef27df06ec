-- ===== src/Broker/Redis/Jobs.antt =====
-- `jobs` of RedisBroker (broker.rs): the entries of a stream, and the jobs that wait for their time.
use tarsk.Base.{
  List, Option, Res, Text, [], err, if◌then◌else◌, map, none, ok, some, text, text_eq, ℕ, ◌++◌, ◌+◌,
  ◌-◌, ◌==◌, ◌^◌, ◌∷◌,
}
use tarsk.Broker.{Listed, as_i64, stream_key, u32, u64}
use tarsk.Base.Dict.{or_else}
use tarsk.Base.Int.{ℤ}
use tarsk.Broker.Redis.{
  Pending, RedisClient, Run, StreamId, bytes_field, delayed_key, send, stream_id_ms, string_field,
}
use tarsk.Broker.Running.{done, ◌>>=◌}

-- `HashMap::get` on the rows of `XPENDING`, of which the last of an id counts.
abbrev pub row_of : (id : Text) → List Pending → Option Pending
row_of id [] = none
row_of id (row ∷ rows) =
    let later = row_of id rows in
    let here = if row.id == id then some row else none in
    elim later [ none ↦ here | some found ↦ some found ]

-- `now as i64 - at as i64`, in the machine.
abbrev pub age_of : (now at : ℕ) → ℤ
age_of now at = as_i64 (now + (2 ^ 64 - u64 at))

module _ (client : RedisClient) where
  -- An entry is running where it is pending, and ready otherwise.
  abbrev pub stream_row : (now : ℕ) → (queue : Text) → List Pending → StreamId → Listed
  stream_row now queue rows entry = elim (row_of entry.id rows) [
    | some row ↦ record {
      id = string_field client entry (text "i");
      queue = queue;
      name = string_field client entry (text "n");
      state = text "running";
      attempt = u32 row.times_delivered;
      age_ms = as_i64 row.last_delivered_ms;
      worker = row.consumer;
      meta = bytes_field client entry (text "m");
    }
    | none ↦ record {
      id = string_field client entry (text "i");
      queue = queue;
      name = string_field client entry (text "n");
      state = text "ready";
      attempt = 0;
      age_ms = as_i64 (now - stream_id_ms entry.id);
      worker = [];
      meta = bytes_field client entry (text "m");
    }
  ]

abbrev pub delayed_row :
    (now : ℕ) → (queue member : Text) → (due : ℕ) → Option Text × Option Text → Listed
delayed_row now queue member due fields = record {
  id = or_else member fields.1;
  queue = queue;
  name = or_else [] fields.0;
  state = text "delayed";
  attempt = 0;
  age_ms = age_of now due;
  worker = [];
  meta = [];
}

module _ {client : RedisClient} {Acker : Type 0} where
  -- A command whose failure counts as some answer.
  abbrev pub send_or {ℓ} :
      {A : Type ℓ} → A → (client.Server → Res A × client.Server) → Run client Acker A
  send_or default command b =
      let (answer, server) = command b.server in
      (ok (elim answer [ ok a ↦ a | err ↦ default ]), record b { server = server })

  unfoldable pub delayed_rows :
      (now : ℕ) → (queue : Text) → List (Text × ℕ) → Run client Acker (List Listed)
  delayed_rows now queue [] = done []
  delayed_rows now queue ((member, due) ∷ waiting) = do
    fields ← send_or (none, none) (client.name_and_id (delayed_key queue ++ text ":" ++ member))
    rows ← delayed_rows now queue waiting
    done (delayed_row now queue member due fields ∷ rows)

  unfoldable pub jobs_of : (now : ℕ) → (limit : ℕ) → List Text → Run client Acker (List Listed)
  unfolding delayed_rows
  jobs_of now limit [] = done []
  jobs_of now limit (queue ∷ queues) = do
    rows ← send_or [] (client.pending_all (stream_key queue) limit)
    entries ← send (client.oldest (stream_key queue) limit)
    due ← send_or [] (client.scored (delayed_key queue) (as_i64 (limit + (2 ^ 64 - 1))))
    waiting ← delayed_rows now queue due
    others ← jobs_of now limit queues
    done (map (stream_row client now queue rows) entries ++ waiting ++ others)
