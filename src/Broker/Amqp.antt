-- ===== src/Broker/Amqp.antt =====
-- The parts of AmqpBroker (broker.rs) that ask nothing of the server: how a job is written into the
-- headers of a message and read back. The headers are a table by name; `String::from_utf8_lossy` is
-- an argument.
pub mod Headers
pub mod Client
pub mod Driver
pub mod Dead
pub mod Results
pub mod Log
pub mod Safe
pub mod Growing
pub mod Ordering
pub mod Priority
pub mod Draining
pub mod Counting
pub mod Tally
mod Examples
use tarsk.Base.{
  List, Option, Text, [], if◌then◌else◌, is_empty, nat_eq, none, some, text, text_eq, ℕ, ◌+◌, ◌∷◌,
}
use tarsk.Broker.{AmqpRecord, Delivery, NewJob, amqp, as_i64, u32}
use tarsk.Base.Dict.{Dict, insert, lookup}
use tarsk.Base.Int.{pos_part, ℤ}

-- The values of `lapin::types::AMQPValue` that the code writes, and all others.
pub data AmqpValue : Type 0 where
  long_string byte_array : Text → AmqpValue
  long_long_int : ℤ → AmqpValue
  other_value : AmqpValue

abbrev pub FieldTable : Type 0
FieldTable = Dict Text AmqpValue

abbrev pub string_in : (lossy : Text → Text) → Option AmqpValue → Text
string_in lossy none = []
string_in lossy (some (long_string s)) = lossy s
string_in lossy (some (byte_array s)) = []
string_in lossy (some (long_long_int n)) = []
string_in lossy (some other_value) = []

abbrev pub number_in : Option AmqpValue → ℕ
number_in none = 0
number_in (some (long_string s)) = 0
number_in (some (byte_array s)) = 0
number_in (some (long_long_int n)) = pos_part n
number_in (some other_value) = 0

abbrev pub bytes_in : Option AmqpValue → Text
bytes_in none = []
bytes_in (some (long_string s)) = []
bytes_in (some (byte_array s)) = s
bytes_in (some (long_long_int n)) = []
bytes_in (some other_value) = []

abbrev pub amqp_header_str : (lossy : Text → Text) → FieldTable → Text → Text
amqp_header_str lossy headers key = string_in lossy (lookup key headers)

abbrev pub amqp_header_u64 : FieldTable → Text → ℕ
amqp_header_u64 headers key = number_in (lookup key headers)

abbrev pub amqp_header_bytes : FieldTable → Text → Text
amqp_header_bytes headers key = bytes_in (lookup key headers)

unfoldable pub amqp_record_from : (lossy : Text → Text) → FieldTable → (body : Text) → AmqpRecord
amqp_record_from lossy headers body = record {
  id = amqp_header_str lossy headers (text "tarsk-id");
  name = amqp_header_str lossy headers (text "tarsk-name");
  payload = body;
  timeout_ms = u32 (amqp_header_u64 headers (text "tarsk-timeout-ms"));
  chain = amqp_header_bytes headers (text "tarsk-chain");
  meta = amqp_header_bytes headers (text "tarsk-meta");
  expires_ms = amqp_header_u64 headers (text "tarsk-expires-ms");
  attempt = u32 (amqp_header_u64 headers (text "tarsk-attempt"));
}

abbrev pub insert_bytes : (key bytes : Text) → FieldTable → FieldTable
insert_bytes key bytes headers =
    if is_empty bytes then headers else insert key (byte_array bytes) headers

unfoldable pub insert_extra : List (Text × Text) → FieldTable → FieldTable
insert_extra [] headers = headers
insert_extra ((key, value) ∷ extra) headers =
    insert_extra extra (insert key (long_string value) headers)

abbrev pub own_headers : AmqpRecord → (ready_at_ms : ℕ) → FieldTable
own_headers r ready_at_ms = insert_bytes (text "tarsk-meta") r.meta (
    insert_bytes (text "tarsk-chain") r.chain (
      insert (text "tarsk-ready-at") (long_long_int (as_i64 ready_at_ms)) (
        insert (text "tarsk-attempt") (long_long_int (as_i64 r.attempt)) (
          insert (text "tarsk-expires-ms") (long_long_int (as_i64 r.expires_ms)) (
            insert (text "tarsk-timeout-ms") (long_long_int (as_i64 r.timeout_ms)) (
              insert (text "tarsk-name") (long_string r.name)
                (insert (text "tarsk-id") (long_string r.id) [])))))))

-- The headers of `encode`; the properties beside them say that the message is durable.
unfoldable pub encode : AmqpRecord → (ready_at_ms : ℕ) → (extra : List (Text × Text)) → FieldTable
unfolding insert_extra
encode r ready_at_ms extra = insert_extra extra (own_headers r ready_at_ms)

-- The record of `push`.
abbrev pub first_record : NewJob → AmqpRecord
first_record job = record {
  id = job.id;
  name = job.name;
  payload = job.payload;
  timeout_ms = job.timeout_ms;
  chain = job.chain;
  meta = job.meta;
  expires_ms = job.expires_ms;
  attempt = 0;
}

unfoldable pub delivery :
    {Acker : Type 0}
    → (lossy : Text → Text) → (queue : Text) → Acker
    → FieldTable
    → (body : Text) → Delivery Acker
unfolding amqp_record_from
delivery lossy queue acker headers body =
    let carried = amqp_record_from lossy headers body in
    record {
      id = carried.id;
      chain = carried.chain;
      meta = carried.meta;
      name = carried.name;
      payload = carried.payload;
      attempt = u32 (carried.attempt + 1);
      receipt = amqp queue acker carried;
      ready_at_ms = amqp_header_u64 headers (text "tarsk-ready-at");
      expires_ms = carried.expires_ms;
    }
