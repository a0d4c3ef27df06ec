-- ===== src/Supervisor/Register.antt =====
-- The registration of a child (`accept_loop`, lib.rs): the first child says which tasks there are,
-- every later one must run the same code.
use tarsk.Base.{
  Bool, List, Option, Text, [], arith, contains, if◌then◌else◌, keep, length, ltb, min, nat_eq,
  none, not, some, text, text_eq, true, ℕ, ◌&&◌, ◌+◌, ◌==◌, ◌∷◌, ◌≡◌,
}
use tarsk.Broker.{u32, u64}
use tarsk.Metrics.{observe}
use tarsk.Supervisor.{BrokerApi, Shared, Spec, count}
use tarsk.Wire.{MessagePack, Value, as_array, as_str, as_u64, decode, field}
use tarsk.Base.Dict.{Dict, insert, or_else}
use tarsk.Base.Float.{Float}
use tarsk.Supervisor.Settle.Exactly.{answer}

abbrev pub Floats : Float → Type 0
Floats fl = Value → Option fl.F64

-- What becomes of a connection. `serves` and `turned_away` say whether a slot was waiting for it.
pub data Handshake : Type 0 where
  ignored : Handshake
  serves turned_away : Bool → Handshake

abbrev pub row_spec : (fl : Float) → Floats fl → List Value → Spec fl
row_spec fl as_f64 fields = record {
  timeout_ms = or_else 0 (field as_u64 fields 1);
  retries = u32 (or_else 0 (field as_u64 fields 2));
  backoff = or_else (text "exp") (field as_str fields 3);
  queue = or_else (text "default") (field as_str fields 4);
  result_ttl_ms = or_else 0 (field as_u64 fields 5);
  cron = or_else [] (field as_str fields 6);
  rate_per_sec = or_else (fl.of_ℕ 0) (field as_f64 fields 7);
  rate_burst = u32 (or_else 0 (field as_u64 fields 8));
  expires_ms = or_else 0 (field as_u64 fields 9);
  max_concurrency = u32 (or_else 0 (field as_u64 fields 10));
}

unfoldable pub read_row : (fl : Float) → Floats fl → Value → Option (Text × Spec fl)
read_row fl as_f64 row = elim (as_array row) [
  | none ↦ none
  | some fields ↦ if ltb (length fields) 5 then none else elim (field as_str fields 0) [
    | none ↦ none
    | some name ↦ some (name, row_spec fl as_f64 fields)
  ]
]

-- A later row of a name takes the place of an earlier one.
unfoldable pub read_rows :
    (fl : Float) → Floats fl → List Value → Dict Text (Spec fl) → Dict Text (Spec fl)
read_rows fl as_f64 [] specs = specs
read_rows fl as_f64 (row ∷ rows) specs = elim (read_row fl as_f64 row) [
  | none ↦ read_rows fl as_f64 rows specs
  | some (name, spec) ↦ read_rows fl as_f64 rows (insert name spec specs)
]

abbrev pub shorter : ℕ → Option ℕ → Option ℕ
shorter ms none = some ms
shorter ms (some least) = some (min ms least)

-- The least timeout that is not zero.
unfoldable pub shortest : {fl : Float} → Dict Text (Spec fl) → Option ℕ
shortest [] = none
shortest ((name, spec) ∷ specs) =
    let rest = shortest specs in
    if ltb 0 spec.timeout_ms then shorter spec.timeout_ms rest else rest

module _ {fl : Float} {api : BrokerApi fl} where
  -- `observe` is the broker's `observe_min_timeout`.
  abbrev pub first_registered :
      (observe : ℕ → api.Store → api.Store)
      → (hash rows : ℕ) → Dict Text (Spec fl)
      → Shared api
      → Shared api
  first_registered observe hash rows specs s = record s {
    registry = some (hash, rows);
    specs = specs;
    store = elim (shortest specs) [ none ↦ s.store | some ms ↦ observe ms s.store ];
  }

  abbrev pub hand_over : Bool → ℕ → Shared api → Handshake × Shared api
  hand_over accepted child_id s =
      let waits = contains s.waiting child_id in
      let taken = record s { waiting = keep (λ id. not (id == child_id)) s.waiting } in
      if accepted
      then (serves waits, taken)
      else (turned_away waits, count (λ c. record c { rejected = u64 (c.rejected + 1) }) taken)

  unfoldable pub register :
      Floats fl
      → (observe : ℕ → api.Store → api.Store) → (child_id hash : ℕ) → List Value
      → Shared api
      → Handshake × Shared api
  register as_f64 observe child_id hash rows s = elim s.registry [
    | none ↦
        hand_over true child_id
          (first_registered observe hash (length rows) (read_rows fl as_f64 rows []) s)
    | some known ↦ hand_over (known.0 == hash) child_id s
  ]

  -- What a connection's first frame does.
  unfoldable pub on_connection :
      MessagePack
      → Floats fl
      → (observe : ℕ → api.Store → api.Store) → Text
      → Shared api
      → Handshake × Shared api
  on_connection pack as_f64 observe body s = elim (decode pack body) [
    | none ↦ (ignored, s)
    | some vs ↦ elim (field as_str vs 0) [
      | none ↦ (ignored, s)
      | some word ↦
          if not (word == text "Register" && length vs == 4)
          then (ignored, s)
          else elim (field as_u64 vs 1) [
            | none ↦ (ignored, s)
            | some child_id ↦ elim (field as_u64 vs 2) [
              | none ↦ (ignored, s)
              | some hash ↦ elim (field as_array vs 3) [
                | none ↦ (ignored, s)
                | some rows ↦ register as_f64 observe child_id hash rows s
              ]
            ]
          ]
    ]
  ]

  -- Once a child has registered, no connection changes the tasks that are registered, what the
  -- broker holds or the code's hash; and a connection is served only if its hash is that one.
  pub register_pins :
      (pack : MessagePack) (as_f64 : Floats fl) (observe : ℕ → api.Store → api.Store) (body : Text)
      (hash rows : ℕ) (s : Shared api)
      → s.registry ≡ some (hash, rows)
      → let (answer, after) = on_connection pack as_f64 observe body s in
        (after.registry ≡ some (hash, rows))
        × (after.specs ≡ s.specs)
        × (after.store ≡ s.store)
        × ((waits : Bool)
            → answer ≡ serves waits
            → (vs : List Value) × (decode pack body ≡ some vs) × (field as_u64 vs 2 ≡ some hash))
  unfolding on_connection register
  register_pins pack as_f64 observe body hash rows s known = ground (arith, known)
