-- ===== src/Broker/Redis.antt =====
-- RedisBroker (broker.rs): what it keeps by itself, and what it asks of its server through the
-- `redis` crate, which is an interface here. A job is an entry of a stream; the entries that were
-- read and not acked are pending, with how long they have been idle.
pub mod Claim
pub mod Settling
pub mod Jobs
pub mod Listing
pub mod Buffer
pub mod Reading
pub mod Sweeping
pub mod Overdue
mod Examples
use tarsk.Base.{
  Bool, List, Option, Res, Text, [], drop, if◌then◌else◌, nat_eq, none, some, take, text, text_eq,
  ℕ, ◌++◌, ◌==◌,
}
use tarsk.Broker.{Delivery, redis, stream_key}
use tarsk.Base.Decimal.{parse_u64}
use tarsk.Base.Dict.{Dict, lookup, or_else}
use tarsk.Base.Int.{ℤ}
use tarsk.Base.Splitting.{split_once}
use tarsk.Broker.Running.{Operation}

abbrev pub delayed_key : (queue : Text) → Text
delayed_key queue = text "tarsk:" ++ queue ++ text ":delayed"

abbrev pub dead_stream : (queue : Text) → Text
dead_stream queue = stream_key queue ++ text ":dead"

pub record StreamId : Type 0 where
  pub id : Text
  pub map : Dict Text Text
  pub delivered_count : Option ℕ

pub record StreamKey : Type 0 where
  pub key : Text
  pub ids : List StreamId

-- A row of `XPENDING`.
pub record Pending : Type 0 where
  pub id : Text
  pub last_delivered_ms : ℕ
  pub times_delivered : ℕ
  pub consumer : Text

-- The commands that the code sends, over an unknown state of the server. `as_string` and `as_number`
-- are the conversions of a value, which may fail. `read_group` is XREADGROUP with its COUNT and
-- BLOCK, `range_one` XRANGE of one id, `ack_delete` the pipe of XACK and XDEL, `set_idle` XCLAIM
-- with IDLE and JUSTID, `claim_idle` XCLAIM with a least idle time and the ids that it won, `bury_entry`
-- the pipe of XADD, XACK and XDEL, `add_delete` that of XADD and the XDEL of a dead entry, `counts`
-- that of two XLEN and ZCARD, `live_members` that of pruning a sorted set and reading it.
pub record RedisClient : Type 1 where
  pub Server : Type 0
  pub as_string : Text → Option Text
  pub as_number : Text → Option ℕ
  pub add : (key : Text) → List (Text × Text) → Server → Res (Unit {0}) × Server
  pub add_delayed :
      (key member : Text) → (due : ℕ) → List (Text × Text) → Server → Res (Unit {0}) × Server
  pub promote : (delayed stream : Text) → (now batch : ℕ) → Server → Res ℕ × Server
  pub read_group :
      (consumer : Text)
      → (batch : ℕ) → (block : Option ℕ) → (keys : List Text) → Server
      → Res (Option (List StreamKey)) × Server
  pub range_one : (key id : Text) → Server → Res (List StreamId) × Server
  pub pending : (key : Text) → (idle count : ℕ) → Server → Res (List Pending) × Server
  pub claim_idle :
      (key consumer : Text) → (min_idle : ℕ) → (id : Text) → Server → Res (List Text) × Server
  pub set_idle : (key consumer id : Text) → (idle : ℕ) → Server → Res (Unit {0}) × Server
  pub ack_delete : (key id : Text) → Server → Res (Unit {0}) × Server
  pub bury_entry :
      (grave key id : Text)
      → (max_length : Option ℕ) → List (Text × Text)
      → Server
      → Res (Unit {0}) × Server
  pub pending_all : (key : Text) → (count : ℕ) → Server → Res (List Pending) × Server
  pub oldest : (key : Text) → (count : ℕ) → Server → Res (List StreamId) × Server
  pub scored : (key : Text) → (last : ℤ) → Server → Res (List (Text × ℕ)) × Server
  pub name_and_id : (key : Text) → Server → Res (Option Text × Option Text) × Server
  pub newest : (key : Text) → (count : ℕ) → Server → Res (List StreamId) × Server
  pub range_all : (key : Text) → Server → Res (List StreamId) × Server
  pub add_delete :
      (key : Text) → List (Text × Text) → (grave id : Text) → Server → Res (Unit {0}) × Server
  pub stream_length : (key : Text) → Server → Res ℕ × Server
  pub delete_key : (key : Text) → Server → Res (Unit {0}) × Server
  pub delete_entries : (key : Text) → List Text → Server → Res ℕ × Server
  pub pending_count : (key : Text) → Server → Res ℕ × Server
  pub counts : (stream grave delayed : Text) → Server → Res (ℕ × ℕ × ℕ) × Server
  pub set_px : (key value : Text) → (ttl_ms : ℕ) → Server → Res (Unit {0}) × Server
  pub set_if_absent : (key value : Text) → (ttl_ms : ℕ) → Server → Res Bool × Server
  pub get_value : (key : Text) → Server → Res (Option Text) × Server
  pub add_scored : (key : Text) → (score : ℕ) → (member : Text) → Server → Res (Unit {0}) × Server
  pub remove_member : (key member : Text) → Server → Res (Unit {0}) × Server
  pub live_members : (key : Text) → (now : ℕ) → Server → Res (List Text) × Server

-- A delivery that is owned and not handed out yet, with when it was claimed and how many
-- milliseconds it may wait.
abbrev pub Held : Type 0 → Type 0
Held Acker = Delivery Acker × ℕ × ℕ

pub record RedisBroker (client : RedisClient) (Acker : Type 0) : Type 0 where
  pub server : client.Server
  pub consumer : Text
  pub queues : List Text
  pub min_timeout_ms : ℕ
  pub grace_ms : ℕ
  pub next_delayed : ℕ
  pub claimed : List (Held Acker)
  pub prefetch : ℕ
  pub prefetch_cap : ℕ

abbrev pub Run {ℓ} : RedisClient → Type 0 → Type ℓ → Type ℓ
Run client Acker A = Operation (RedisBroker client Acker) A

-- The millisecond in a stream id, which is `<millis>-<seq>`.
abbrev pub stream_id_ms : (id : Text) → ℕ
stream_id_ms id = elim (split_once b'-' id) [
  | none ↦ or_else 0 (parse_u64 id)
  | some halves ↦ or_else 0 (parse_u64 halves.0)
]

-- `strip_prefix("tarsk:")`, or the key itself.
abbrev pub queue_of : (key : Text) → Text
queue_of key = if take 6 key == text "tarsk:" then drop 6 key else key

module _ (client : RedisClient) where
  -- `entry.get`: none where there is no such field, or it is of another type.
  abbrev pub string_field : StreamId → (name : Text) → Text
  string_field entry name = elim (lookup name entry.map) [
    | none ↦ []
    | some v ↦ or_else [] (client.as_string v)
  ]

  abbrev pub bytes_field : StreamId → (name : Text) → Text
  bytes_field entry name = or_else [] (lookup name entry.map)

  abbrev pub number_field : StreamId → (name : Text) → ℕ
  number_field entry name = elim (lookup name entry.map) [
    | none ↦ 0
    | some v ↦ or_else 0 (client.as_number v)
  ]

  -- `entry_fields`, of which the name, the payload and the timeout are read one by one.
  abbrev pub entry_timeout : StreamId → ℕ
  entry_timeout entry = number_field entry (text "t")

  -- The delivery of an entry, at some attempt.
  unfoldable pub delivery_of :
      {Acker : Type 0} → (queue id : Text) → (attempt : ℕ) → StreamId → Delivery Acker
  delivery_of queue id attempt entry = record {
    id = string_field entry (text "i");
    chain = bytes_field entry (text "c");
    meta = bytes_field entry (text "m");
    name = string_field entry (text "n");
    payload = bytes_field entry (text "p");
    attempt = attempt;
    receipt = redis queue id;
    ready_at_ms = stream_id_ms id;
    expires_ms = number_field entry (text "x");
  }

module _ {client : RedisClient} {Acker : Type 0} where
  -- A command, on any of the connections.
  abbrev pub send {ℓ} : {A : Type ℓ} → (client.Server → Res A × client.Server) → Run client Acker A
  send command b = let (answer, server) = command b.server in (answer, record b { server = server })
