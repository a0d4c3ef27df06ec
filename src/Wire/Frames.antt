-- ===== src/Wire/Frames.antt =====
-- `read_frame` and `write_frame`. A reader is the bytes that arrive before the peer closes; what a
-- writer does is the bytes that it sends. An error of the operating system in between is not
-- modelled.
use mathlib.Core.List.{append_assoc}
use tarsk.Base.{
  Option, Text, [], arith, drop, drop-length-append, if◌then◌else◌, length, length-append,
  length-take, ltb, none, refl, some, suc, take, take-length-append, zero, ℕ, ◌%◌, ◌*◌, ◌++◌, ◌+◌,
  ◌/◌, ◌<◌, ◌^◌, ◌∙◌, ◌∷◌, ◌≡◌, ◌≤◌,
}
use tarsk.Broker.{u32}
use tarsk.Wire.{MessagePack, Value}

abbrev pub max_frame : ℕ
max_frame = 33554432

-- `u32::to_be_bytes`, of the length as a `u32`.
unfoldable pub be_bytes : ℕ → Text
be_bytes n = n / 16777216 % 256 ∷ n / 65536 % 256 ∷ n / 256 % 256 ∷ n % 256 ∷ []

abbrev from_be_bytes : ℕ → ℕ → ℕ → ℕ → ℕ
from_be_bytes a b c d = a * 16777216 + b * 65536 + c * 256 + d

-- `Ok(Some(body))` with the bytes that follow, `Ok(None)`, and the two errors.
pub data Read : Type 0 where
  frame : (body rest : Text) → Read
  closed too_big cut_short : Read

read_body : ℕ → Text → Read
read_body size bytes =
    if ltb max_frame size
    then too_big
    else if ltb (length bytes) size
    then cut_short
    else frame (take size bytes) (drop size bytes)

unfoldable pub read_frame : Text → Read
unfolding read_body
read_frame (a ∷ b ∷ c ∷ d ∷ bytes) = read_body (from_be_bytes a b c d) bytes
read_frame _ = closed

unfoldable pub write_frame : MessagePack → Value → Option Text
unfolding be_bytes
write_frame pack v = elim (pack.write_value v) [
  | none ↦ none
  | some body ↦ some (be_bytes (u32 (length body)) ++ body)
]

from_be-be :
    (n : ℕ)
    → n < 2 ^ 32
    → from_be_bytes (n / 16777216 % 256) (n / 65536 % 256) (n / 256 % 256) (n % 256) ≡ n
from_be-be n h = omega arith

read_body_lem :
    (body rest : Text) (n : ℕ)
    → n ≡ length body
    → read_body n (body ++ rest)
      ≡ (if ltb max_frame (length body) then too_big else frame body rest)
unfolding read_body
read_body_lem body rest n e = rw e (
    ground
      (arith, length-append body rest, take-length-append body rest, drop-length-append body rest))

read_frame-bytes :
    (body rest : Text)
    → length body < 2 ^ 32
    → read_frame (be_bytes (u32 (length body)) ++ (body ++ rest))
      ≡ (if ltb max_frame (length body) then too_big else frame body rest)
unfolding read_frame be_bytes
read_frame-bytes body rest h = read_body_lem body rest _ (omega arith)

-- What one side writes, the other reads, with the bytes behind it left for the next frame; a body
-- longer than the limit is written and then refused by the reader. Bodies are below 2^32 bytes.
pub read_frame-write_frame :
    (pack : MessagePack) (v : Value) {body : Text} (rest : Text)
    → pack.write_value v ≡ some body
    → length body < 2 ^ 32
    → (bytes : Text) × (write_frame pack v ≡ some bytes)
      × (read_frame (bytes ++ rest)
          ≡ (if ltb max_frame (length body) then too_big else frame body rest))
unfolding write_frame
read_frame-write_frame pack v {body} rest e h = (
  be_bytes (u32 (length body)) ++ body,
  rw (e, write_frame),
  rw (append_assoc (be_bytes (u32 (length body))) body rest) (read_frame-bytes body rest h),
)

read_body_short :
    (body : Text) (k n : ℕ)
    → n ≡ length body
    → length body ≤ max_frame
    → k < length body
    → read_body n (take k body) ≡ cut_short
unfolding read_body
read_body_short body k n e fits cut = rw e (ground (arith, length-take k body))

-- A peer that closes inside a header is taken for one that closed between two frames; one that
-- closes inside a body is an error.
pub read_frame_cut :
    (body : Text) (k : ℕ)
    → length body ≤ max_frame
    → k < 4 + length body
    → let sent = take k (be_bytes (u32 (length body)) ++ body) in
      read_frame sent ≡ (if ltb k 4 then closed else cut_short)
unfolding read_frame read_body be_bytes
read_frame_cut body zero fits cut = refl
read_frame_cut body (suc zero) fits cut = refl
read_frame_cut body (suc (suc zero)) fits cut = refl
read_frame_cut body (suc (suc (suc zero))) fits cut = refl
read_frame_cut body (suc (suc (suc (suc k)))) fits cut =
    read_body_short body k _ (omega arith) fits (omega arith) ∙ ground arith
