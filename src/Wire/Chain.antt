-- ===== src/Wire/Chain.antt =====
-- Splicing a result in front of the next step's arguments.
use tarsk.Base.{List, Text, [], none, some, ◌∷◌}
use tarsk.Wire.{MessagePack, Value, array, array_of, as_array, items, map_of, nil, none_left}
use tarsk.Base.Dict.{or_else}

abbrev merged : MessagePack → (result : Text) → List Value → Value
merged pack result args = array_of (or_else nil (pack.read_value result) ∷ args)

unfoldable splice : MessagePack → (payload result : Text) → List Value → Text
splice pack payload result (array args ∷ kwargs ∷ []) =
    or_else [] (pack.write_value (array_of (merged pack result (items args) ∷ kwargs ∷ [])))
splice pack payload result _ = payload

unfoldable pub prepend_result : MessagePack → (payload result : Text) → Text
unfolding splice
prepend_result pack payload result = elim (pack.read_value payload) [
  | none ↦ payload
  | some v ↦ elim (as_array v) [ none ↦ payload | some parts ↦ splice pack payload result parts ]
]

-- `no_arguments`: the payload of a scheduled task.
unfoldable pub no_arguments : MessagePack → Text
no_arguments pack =
    or_else [] (pack.write_value (array_of (array none_left ∷ map_of none_left ∷ [])))
