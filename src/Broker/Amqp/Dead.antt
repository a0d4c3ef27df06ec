-- ===== src/Broker/Amqp/Dead.antt =====
-- AmqpBroker (broker.rs): looking at the messages of a queue, and the dead letters.
use tarsk.Base.{
  Bool, List, Text, [], contains, false, if◌then◌else◌, leb, length, map, nat_eq, ok, suc, text,
  text_eq, true, zero, ℕ, ◌++◌, ◌+◌, ◌-◌, ◌==◌, ◌||◌, ◌∷◌,
}
use tarsk.Broker.{AmqpRecord, Dead, Listed, Receipt, amqp, as_i64, stream_key, u32}
use tarsk.Base.Decimal.{decimal, parse_u64}
use tarsk.Base.Dict.{or_else}
use tarsk.Broker.Amqp.{FieldTable, amqp_header_str, amqp_header_u64, amqp_record_from}
use tarsk.Broker.Running.{done, fail, when_found, ◌>>=◌, ◌>>◌}
use tarsk.Broker.Amqp.Client.{AmqpClient, Message, Run, ask, declare_once, declare_plain}
use tarsk.Broker.Amqp.Driver.{publish_record}

abbrev pub dead_key : (queue : Text) → Text
dead_key queue = stream_key queue ++ text ":dead"

-- What `peek` holds of a message.
pub record Seen (Acker : Type 0) : Type 0 where
  pub carried : AmqpRecord
  pub ready_at_ms : ℕ
  pub headers : FieldTable
  pub acker : Acker

abbrev seen_of : {Acker : Type 0} → (lossy : Text → Text) → Message Acker → Seen Acker
seen_of lossy m =
    let headers = or_else [] m.headers in
    record {
      carried = amqp_record_from lossy headers m.body;
      ready_at_ms = amqp_header_u64 headers (text "tarsk-ready-at");
      headers = headers;
      acker = m.acker;
    }

abbrev pub listed_of : {Acker : Type 0} → (now : ℕ) → (queue : Text) → Seen Acker → Listed
listed_of now queue seen = record {
  id = seen.carried.id;
  queue = queue;
  name = seen.carried.name;
  state = text "ready";
  attempt = u32 (seen.carried.attempt + 1);
  age_ms = as_i64 (now - seen.ready_at_ms);
  worker = [];
  meta = seen.carried.meta;
}

abbrev pub dead_of : {Acker : Type 0} → (lossy : Text → Text) → Seen Acker → Dead
dead_of lossy seen = record {
  id = seen.carried.id;
  name = seen.carried.name;
  error = amqp_header_str lossy seen.headers (text "tarsk-error");
  traceback = amqp_header_str lossy seen.headers (text "tarsk-traceback");
  died_at_ms = or_else 0 (parse_u64 (amqp_header_str lossy seen.headers (text "tarsk-died-at")));
}

abbrev pub is_wanted : {Acker : Type 0} → (ids : List Text) → Seen Acker → Bool
is_wanted ids seen = leb (length ids) 0 || contains ids seen.carried.id

abbrev pub bury_headers : (error traceback : Text) → (died : ℕ) → List (Text × Text)
bury_headers error traceback died =
    (text "tarsk-error", error)
    ∷ (text "tarsk-traceback", traceback)
    ∷ (text "tarsk-died-at", decimal died)
    ∷ []

module _ {client : AmqpClient} where
  -- `while count > keep`: the oldest goes, as long as there is one.
  unfoldable pub trim : (dead : Text) → (keep count : ℕ) → Run client (Unit {0})
  trim dead keep zero b = (ok tt, b)
  trim dead keep (suc count) b =
      if leb (suc count) keep
      then (ok tt, b)
      else (ask (client.get dead) >>= λ oldest.
            when_found oldest (done tt) λ m. ask (client.ack m.acker) >>= λ _. trim dead keep count)
          b

  abbrev pub enforce_cap : (dead : Text) → (keep : ℕ) → Run client (Unit {0})
  enforce_cap dead keep b =
      if keep == 0 then (ok tt, b) else (declare_plain dead >>= λ count. trim dead keep count) b

  -- `died` and `now` are two readings of the clock.
  unfoldable pub dead_letter :
      (died now : ℕ)
      → Receipt client.Acker
      → (error traceback : Text) → (keep : ℕ) → Run client (Unit {0})
  unfolding declare_once declare_plain publish_record trim
  dead_letter died now (amqp queue acker r) error traceback keep = do
    declare_once (dead_key queue)
    publish_record (dead_key queue) r now (bury_headers error traceback died)
    ask (client.ack acker)
    enforce_cap (dead_key queue) keep
  dead_letter died now _ error traceback keep = fail

  unfoldable pub get_some :
      (lossy : Text → Text) → (name : Text) → (limit : ℕ) → Run client (List (Seen client.Acker))
  get_some lossy name zero = done []
  get_some lossy name (suc limit) = do
    fetched ← ask (client.get name)
    when_found fetched (done [])
        λ m. do rest ← get_some lossy name limit; done (seen_of lossy m ∷ rest)

  unfoldable pub peek :
      (lossy : Text → Text) → (name : Text) → (limit : ℕ) → Run client (List (Seen client.Acker))
  unfolding declare_once get_some
  peek lossy name limit = do declare_once name; get_some lossy name limit

  unfoldable pub requeue_all : List (Seen client.Acker) → Run client (Unit {0})
  requeue_all [] = done tt
  requeue_all (seen ∷ rest) = do ask (client.nack_requeue seen.acker); requeue_all rest

  -- `times` reads the clock, once for each queue.
  unfoldable pub jobs_onto :
      (lossy : Text → Text)
      → (times : ℕ → ℕ) → (limit : ℕ) → (rows : List Listed) → List Text
      → Run client (List Listed)
  unfolding peek requeue_all
  jobs_onto lossy times limit rows [] = done rows
  jobs_onto lossy times limit rows (queue ∷ wanted) = do
    seen ← peek lossy (stream_key queue) (limit - length rows)
    let filled = rows ++ map (listed_of (times (length wanted)) queue) seen
    requeue_all seen
    let rest = jobs_onto lossy times limit filled wanted
    λ b. if leb limit (length filled) then (ok filled, b) else rest b

  unfoldable pub jobs :
      (lossy : Text → Text)
      → (times : ℕ → ℕ) → (wanted : List Text) → (limit : ℕ) → Run client (List Listed)
  unfolding jobs_onto
  jobs lossy times wanted limit = jobs_onto lossy times limit [] wanted

  unfoldable pub dead_list :
      (lossy : Text → Text) → (queue : Text) → (limit : ℕ) → Run client (List Dead)
  unfolding peek requeue_all
  dead_list lossy queue limit = do
    seen ← peek lossy (dead_key queue) limit
    requeue_all seen
    done (map (dead_of lossy) seen)

  abbrev pub replay_one : (now : ℕ) → (queue : Text) → AmqpRecord → Run client (Unit {0})
  replay_one now queue r = do
    declare_once (stream_key queue)
    publish_record (stream_key queue) (record r { attempt = 0 }) now []

  abbrev pub settle_one :
      (now : ℕ) → (queue : Text) → (replay : Bool) → AmqpRecord → Run client (Unit {0})
  settle_one now queue true r = replay_one now queue r
  settle_one now queue false r = done tt

  -- The entries that match go, after a replay where one is asked; the others are left over. `times`
  -- reads the clock, once for each entry.
  unfoldable pub settle_seen :
      (times : ℕ → ℕ)
      → (queue : Text) → (ids : List Text) → (replay : Bool) → List (Seen client.Acker)
      → Run client (ℕ × List (Seen client.Acker))
  unfolding declare_once publish_record
  settle_seen times queue ids replay [] = done (0, [])
  settle_seen times queue ids replay (seen ∷ rest) =
      let others = settle_seen times queue ids replay rest in
      if is_wanted ids seen
      then (do
        settle_one (times (length rest)) queue replay seen.carried
        ask (client.ack seen.acker)
        both ← others
        done (both.0 + 1, both.1))
      else (do both ← others; done (both.0, seen ∷ both.1))

  unfoldable pub dead_drain :
      (lossy : Text → Text)
      → (times : ℕ → ℕ) → (queue : Text) → (ids : List Text) → (replay : Bool) → Run client ℕ
  unfolding peek requeue_all settle_seen
  dead_drain lossy times queue ids replay = do
    seen ← peek lossy (dead_key queue) 10000
    both ← settle_seen times queue ids replay seen
    requeue_all both.1
    done both.0
