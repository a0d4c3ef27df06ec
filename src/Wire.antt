-- ===== src/Wire.antt =====
-- The channel between the supervisor and a child (crates/tarsk-core/src/lib.rs): frames of bytes,
-- and the values that they carry. `rmpv`, the MessagePack library, is a parameter.
pub mod Frames
pub mod Chain
mod Examples
use tarsk.Base.{
  Bool, List, Option, Text, [], ap, get_elem?, if◌then◌else◌, none, refl, some, text, text_eq, ℕ,
  ◌==◌, ◌∷◌, ◌≡◌,
}
use tarsk.Broker.{u32}
use tarsk.Base.Dict.{or_else}

mutual
  pub data Value : Type 0 where
    nil : Value
    boolean : Bool → Value
    integer : ℕ → Value
    string : Text → Value
    binary : Text → Value
    array : Values → Value
    map_of : Values → Value

  pub data Values : Type 0 where
    none_left : Values
    and_then : Value → Values → Values

-- `Value::Array(Vec<Value>)` as a list, and back.
unfoldable pub items : Values → List Value
items none_left = []
items (and_then v vs) = v ∷ items vs

unfoldable pub values : List Value → Values
values [] = none_left
values (v ∷ vs) = and_then v (values vs)

pub items-values : (vs : List Value) → items (values vs) ≡ vs
unfolding items values
items-values [] = refl
items-values (v ∷ vs) = ap (◌∷◌ v) (items-values vs)

abbrev pub array_of : List Value → Value
array_of vs = array (values vs)

-- `as_str`, `as_slice` (of text or bytes), `as_u64` and `as_bool` of `rmpv::Value`.
abbrev pub as_str : Value → Option Text
as_str (string s) = some s
as_str _ = none

abbrev pub as_slice : Value → Option Text
as_slice (string s) = some s
as_slice (binary b) = some b
as_slice _ = none

abbrev pub as_u64 : Value → Option ℕ
as_u64 (integer n) = some n
as_u64 _ = none

abbrev pub as_bool : Value → Option Bool
as_bool (boolean b) = some b
as_bool _ = none

abbrev pub as_array : Value → Option (List Value)
as_array (array vs) = some (items vs)
as_array _ = none

-- `rmpv::encode::write_value` into an empty buffer, and `rmpv::decode::read_value`, which reads
-- one value from the front of a buffer.
pub record MessagePack : Type 0 where
  pub write_value : Value → Option Text
  pub read_value : Text → Option Value

-- What a reader relies on: a value is read back from the bytes that were written for it.
pub record RoundTrip (pack : MessagePack) : Type 0 where
  pub read_write :
      (v : Value) {bytes : Text} → pack.write_value v ≡ some bytes → pack.read_value bytes ≡ some v

-- `decode`: a frame is a non-empty array.
unfoldable pub decode : MessagePack → Text → Option (List Value)
decode pack body = elim (pack.read_value body) [
  | none ↦ none
  | some v ↦ elim (as_array v) [
    | none ↦ none
    | some vs ↦ elim vs [ [] ↦ none | v ∷ rest ↦ some (v ∷ rest) ]
  ]
]

-- What the handler asked for, on top of having failed.
pub data Directive : Type 0 where
  policy reject : Directive
  retry_after : ℕ → Directive

-- `items.get(i).and_then(f)`
abbrev pub field {ℓ} : {A : Type ℓ} → (Value → Option A) → List Value → ℕ → Option A
field f vs i = elim (get_elem? vs i) [ none ↦ none | some v ↦ f v ]

unfoldable pub read_directive : List Value → Directive
read_directive vs = elim (field as_str vs 4) [
  | none ↦ policy
  | some word ↦
      if word == text "reject"
      then reject
      else if word == text "retry"
      then retry_after (u32 (or_else 0 (field as_u64 vs 5)))
      else policy
]
