-- ===== src/Broker.antt =====
-- crates/tarsk-core/src/broker.rs: what a job, a receipt and a delivery are. The children follow
-- the state that a process keeps by itself (`Local`) and the in-memory broker (`Memory`).
-- Integers keep their width: `u64` and `u32` write the wrap-around out. An `Instant` and a
-- `Duration` are numbers of nanoseconds; every reading of a clock is an argument.
pub mod Amqp
mod Examples
pub mod Local
pub mod Memory
pub mod Redis
pub mod Running
use tarsk.Base.{Text, if◌then◌else◌, ltb, text, ℕ, ◌%◌, ◌*◌, ◌++◌, ◌-◌, ◌/◌, ◌^◌}
use tarsk.Base.Int.{negsuc, pos, ℤ}

abbrev pub u64 : ℕ → ℕ
u64 n = n % 2 ^ 64

abbrev pub u32 : ℕ → ℕ
u32 n = n % 2 ^ 32

-- `as i64`
abbrev pub as_i64 : ℕ → ℤ
as_i64 n = if ltb (u64 n) (2 ^ 63) then pos (u64 n) else negsuc (2 ^ 64 - u64 n - 1)

abbrev pub from_millis : ℕ → ℕ
from_millis ms = ms * 1000000

abbrev pub as_millis : ℕ → ℕ
as_millis d = d / 1000000

pub record NewJob : Type 0 where
  pub id : Text
  pub queue : Text
  pub name : Text
  pub payload : Text
  pub timeout_ms : ℕ
  pub meta : Text
  pub expires_ms : ℕ
  pub chain : Text

pub record AmqpRecord : Type 0 where
  pub id : Text
  pub name : Text
  pub payload : Text
  pub timeout_ms : ℕ
  pub chain : Text
  pub meta : Text
  pub expires_ms : ℕ
  pub attempt : ℕ

-- The type of `lapin::Acker` is a parameter.
pub data Receipt (Acker : Type 0) : Type 0 where
  memory : (id : ℕ) → Receipt Acker
  amqp : (queue : Text) → (acker : Acker) → (carried : AmqpRecord) → Receipt Acker
  redis : (queue id : Text) → Receipt Acker
  postgres : (row run_lease : ℤ) → Receipt Acker

pub record Delivery (Acker : Type 0) : Type 0 where
  pub id : Text
  pub chain : Text
  pub meta : Text
  pub name : Text
  pub payload : Text
  pub attempt : ℕ
  pub receipt : Receipt Acker
  pub ready_at_ms : ℕ
  pub expires_ms : ℕ

pub record Depth : Type 0 where
  pub queue : Text
  pub ready : ℕ
  pub in_flight : ℕ
  pub delayed : ℕ
  pub dead : ℕ

pub record Listed : Type 0 where
  pub id : Text
  pub queue : Text
  pub name : Text
  pub state : Text
  pub attempt : ℕ
  pub age_ms : ℤ
  pub worker : Text
  pub meta : Text

pub record Dead : Type 0 where
  pub id : Text
  pub name : Text
  pub error : Text
  pub traceback : Text
  pub died_at_ms : ℕ

abbrev pub stream_key : (queue : Text) → Text
stream_key queue = text "tarsk:" ++ queue

abbrev pub result_key : (id : Text) → Text
result_key id = text "tarsk:result:" ++ id
