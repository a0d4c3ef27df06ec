-- ===== src/Broker/Amqp/Headers.antt =====
-- What a claim reads from the headers that were published (`encode` and `amqp_record_from`,
-- broker.rs).
use tarsk.Base.{
  All, List, Text, [], ap, arith, false, refl, text, text_eq, ℕ, ◌<◌, ◌==◌, ◌^◌, ◌∙◌, ◌∷◌, ◌≡◌,
}
use tarsk.Broker.{AmqpRecord, as_i64, u32}
use tarsk.Base.Dict.{insert, lookup, lookup-insert, remove}
use tarsk.Base.Int.{pos_part}
use tarsk.Broker.Amqp.{
  FieldTable, amqp_record_from, bytes_in, encode, insert_extra, long_string, number_in, own_headers,
  string_in,
}

lookup-insert_extra :
    (key : Text) (extra : List (Text × Text)) (headers : FieldTable)
    → All (λ entry. (entry.0 == key) ≡ false) extra
    → lookup key (insert_extra extra headers) ≡ lookup key headers
unfolding insert_extra
lookup-insert_extra key [] headers apart = refl
lookup-insert_extra key ((k, v) ∷ extra) headers apart = ground (
  arith,
  apart,
  lookup-insert k key (long_string v) headers,
  lookup-insert_extra key extra (insert k (long_string v) headers) apart.1,
)

pos_part-as_i64 : (n : ℕ) → n < 2 ^ 63 → pos_part (as_i64 n) ≡ n
pos_part-as_i64 n h = ground (arith, h)

u32-below : (n : ℕ) → n < 2 ^ 32 → u32 n ≡ n
u32-below n h = ground (arith, h)

own_record :
    (lossy : Text → Text) (r : AmqpRecord) (ready_at_ms : ℕ)
    → lossy r.id ≡ r.id
    → lossy r.name ≡ r.name
    → r.timeout_ms < 2 ^ 32
    → r.attempt < 2 ^ 32
    → r.expires_ms < 2 ^ 63
    → amqp_record_from lossy (own_headers r ready_at_ms) r.payload ≡ r
unfolding amqp_record_from lookup insert remove
own_record lossy r ready_at_ms valid_id valid_name timeout attempt expires = ground (
  arith,
  valid_id,
  valid_name,
  pos_part-as_i64 r.timeout_ms (omega (arith, timeout)),
  pos_part-as_i64 r.attempt (omega (arith, attempt)),
  pos_part-as_i64 r.expires_ms expires,
  u32-below r.timeout_ms timeout,
  u32-below r.attempt attempt,
)

-- The names of the headers that a record is read from.
abbrev pub own_names : List Text
own_names =
    text "tarsk-id"
    ∷ text "tarsk-name"
    ∷ text "tarsk-timeout-ms"
    ∷ text "tarsk-chain"
    ∷ text "tarsk-meta"
    ∷ text "tarsk-expires-ms"
    ∷ text "tarsk-attempt"
    ∷ []

-- The headers have other names than those of a record.
abbrev pub IsExtra : List (Text × Text) → Type 0
IsExtra extra = All (λ key. All (λ entry. (entry.0 == key) ≡ false) extra) own_names

record_path :
    (r q : AmqpRecord)
    → r.id ≡ q.id
    → r.name ≡ q.name
    → r.payload ≡ q.payload
    → r.timeout_ms ≡ q.timeout_ms
    → r.chain ≡ q.chain
    → r.meta ≡ q.meta
    → r.expires_ms ≡ q.expires_ms
    → r.attempt ≡ q.attempt
    → r ≡ q
record_path r q id_path name_path payload_path timeout chain meta expires attempt =
    ground (arith, id_path, name_path, payload_path, timeout, chain, meta, expires, attempt)

same_record :
    (lossy : Text → Text) (body : Text) (headers own : FieldTable)
    → lookup (text "tarsk-id") headers ≡ lookup (text "tarsk-id") own
    → lookup (text "tarsk-name") headers ≡ lookup (text "tarsk-name") own
    → lookup (text "tarsk-timeout-ms") headers ≡ lookup (text "tarsk-timeout-ms") own
    → lookup (text "tarsk-chain") headers ≡ lookup (text "tarsk-chain") own
    → lookup (text "tarsk-meta") headers ≡ lookup (text "tarsk-meta") own
    → lookup (text "tarsk-expires-ms") headers ≡ lookup (text "tarsk-expires-ms") own
    → lookup (text "tarsk-attempt") headers ≡ lookup (text "tarsk-attempt") own
    → amqp_record_from lossy headers body ≡ amqp_record_from lossy own body
unfolding amqp_record_from
same_record lossy body headers own i n t c m e a =
    record_path (amqp_record_from lossy headers body) (amqp_record_from lossy own body)
      (ap (string_in lossy) i) (ap (string_in lossy) n) refl (ap (λ x. u32 (number_in x)) t)
      (ap bytes_in c) (ap bytes_in m) (ap number_in e) (ap (λ x. u32 (number_in x)) a)

-- What is published is what a claim reads: the record comes back from the headers and the body of
-- the message, with whatever headers of other names beside it. The name and the id are valid text,
-- which the lossy conversion leaves as it is, and the numbers are in the ranges of their types, the
-- expiry below 2^63.
pub amqp_record_from-encode :
    (lossy : Text → Text) (r : AmqpRecord) (ready_at_ms : ℕ) (extra : List (Text × Text))
    → IsExtra extra
    → lossy r.id ≡ r.id
    → lossy r.name ≡ r.name
    → r.timeout_ms < 2 ^ 32
    → r.attempt < 2 ^ 32
    → r.expires_ms < 2 ^ 63
    → amqp_record_from lossy (encode r ready_at_ms extra) r.payload ≡ r
unfolding amqp_record_from encode
amqp_record_from-encode lossy r ready_at_ms extra (i, (n, (t, (c, (m, (e, (a, _))))))) valid_id
      valid_name timeout attempt expires =
    let own = own_headers r ready_at_ms in
    same_record lossy r.payload (insert_extra extra own) own
      (lookup-insert_extra (text "tarsk-id") extra own i)
      (lookup-insert_extra (text "tarsk-name") extra own n)
      (lookup-insert_extra (text "tarsk-timeout-ms") extra own t)
      (lookup-insert_extra (text "tarsk-chain") extra own c)
      (lookup-insert_extra (text "tarsk-meta") extra own m)
      (lookup-insert_extra (text "tarsk-expires-ms") extra own e)
      (lookup-insert_extra (text "tarsk-attempt") extra own a)
    ∙ own_record lossy r ready_at_ms valid_id valid_name timeout attempt expires
