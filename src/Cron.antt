-- ===== src/Cron.antt =====
-- Five-field cron in UTC (crates/tarsk-core/src/cron.rs). A bitset is the list of the bits that are
-- set. The words of an error are left out.
pub mod Fields
mod Examples
pub mod Calendar
use tarsk.Base.{
  Bool, List, Option, Text, [], contains, false, if◌then◌else◌, leb, ltb, nat_eq, none, not, some,
  suc, text, text_eq, true, zero, ℕ, ◌%◌, ◌&&◌, ◌*◌, ◌+◌, ◌-◌, ◌/◌, ◌==◌, ◌||◌, ◌∷◌,
}
use tarsk.Broker.{u32}
use tarsk.Base.Decimal.{parse_u32}
use tarsk.Base.Int.{div_euclid, pos, rem_euclid, ℤ, ◌+ℤ◌}
use tarsk.Base.Splitting.{split, split_once, split_whitespace}

pub record Schedule : Type 0 where
  pub minute : List ℕ
  pub hour : List ℕ
  pub dom : List ℕ
  pub month : List ℕ
  pub dow : List ℕ
  pub dom_restricted : Bool
  pub dow_restricted : Bool

-- `while value <= hi { bits |= 1 << value; value += step; }`: `none` is fuel that ran out.
unfoldable pub set_bits : (fuel value hi step : ℕ) → List ℕ → Option (List ℕ)
set_bits zero value hi step bits = none
set_bits (suc fuel) value hi step bits =
    let more = set_bits fuel (u32 (value + step)) hi step (value ∷ bits) in
    if leb value hi then more else some bits

-- As many turns as bits that there are, and one to see the end.
abbrev pub turns : ℕ
turns = 65

-- The range and the step of one part.
unfoldable pub read_part : Text → Option (Text × ℕ)
read_part part = elim (split_once b'/' part) [
  | none ↦ some (part, 1)
  | some halves ↦ elim (parse_u32 halves.1) [ none ↦ none | some step ↦ some (halves.0, step) ]
]

-- The ends of a range, and whether it restricts the field.
unfoldable pub read_range : Text → (min_value max_value : ℕ) → Option (ℕ × ℕ × Bool)
read_range range min_value max_value =
    if range == text "*" then some (min_value, max_value, false) else elim (split_once b'-' range) [
      | none ↦ elim (parse_u32 range) [ none ↦ none | some value ↦ some (value, value, true) ]
      | some halves ↦ elim (parse_u32 halves.0) [
        | none ↦ none
        | some lo ↦ elim (parse_u32 halves.1) [ none ↦ none | some hi ↦ some (lo, hi, true) ]
      ]
    ]

abbrev pub outside : (lo hi min_value max_value : ℕ) → Bool
outside lo hi min_value max_value = ltb lo min_value || ltb max_value hi || ltb hi lo

-- One pass of the loop over the parts.
unfoldable pub add_part : (min_value max_value : ℕ) → Text → List ℕ × Bool → Option (List ℕ × Bool)
add_part min_value max_value part (bits, restricted) = elim (read_part part) [
  | none ↦ none
  | some (range, step) ↦ if step == 0 then none else elim (read_range range min_value max_value) [
    | none ↦ none
    | some (lo, hi, restricts) ↦
        if outside lo hi min_value max_value then none else elim (set_bits turns lo hi step bits) [
          | none ↦ none
          | some after ↦ some (after, restricted && restricts)
        ]
  ]
]

unfoldable pub add_parts :
    (min_value max_value : ℕ) → List Text → List ℕ × Bool → Option (List ℕ × Bool)
add_parts min_value max_value [] field_so_far = some field_so_far
add_parts min_value max_value (part ∷ parts) field_so_far =
    elim (add_part min_value max_value part field_so_far) [
      | none ↦ none
      | some after ↦ add_parts min_value max_value parts after
    ]

unfoldable pub parse_field : Text → (min_value max_value : ℕ) → Option (List ℕ × Bool)
parse_field spec min_value max_value =
    elim (add_parts min_value max_value (split b',' spec) ([], true)) [
      | none ↦ none
      | some (bits, restricted) ↦ elim bits [ [] ↦ none | b ∷ bs ↦ some (b ∷ bs, restricted) ]
    ]

abbrev pub schedule_of : (minute hour dom month dow : List ℕ × Bool) → Schedule
schedule_of minute hour dom month dow = record {
  minute = minute.0;
  hour = hour.0;
  dom = dom.0;
  month = month.0;
  dow = dow.0;
  dom_restricted = dom.1;
  dow_restricted = dow.1;
}

infixl 20 ◌>>=◌
abbrev ◌>>=◌ {ℓ κ} : {A : Type ℓ} {B : Type κ} → Option A → (A → Option B) → Option B
none >>= f = none
some a >>= f = f a

abbrev pub parse_five : (a b d e f : Text) → Option Schedule
parse_five a b d e f = do
  minute ← parse_field a 0 59
  hour ← parse_field b 0 23
  dom ← parse_field d 1 31
  month ← parse_field e 1 12
  dow ← parse_field f 0 6
  some (schedule_of minute hour dom month dow)

unfoldable pub parse : Text → Option Schedule
parse expr = elim (split_whitespace expr) [
  | a ∷ b ∷ d ∷ e ∷ f ∷ [] ↦ parse_five a b d e f
  | _ ↦ none
]

pub record Civil : Type 0 where
  pub month : ℕ
  pub day : ℕ
  pub hour : ℕ
  pub minute : ℕ
  pub weekday : ℕ

abbrev pub day_of_era : ℤ → ℕ
day_of_era days = rem_euclid (days +ℤ pos 719468) 146097

abbrev pub year_of_era : ℕ → ℕ
year_of_era doe = (doe - doe / 1460 + doe / 36524 - doe / 146096) / 365

abbrev pub day_of_year : ℕ → ℕ
day_of_year doe = let yoe = year_of_era doe in doe - (365 * yoe + yoe / 4 - yoe / 100)

-- Months from March.
abbrev pub month_from_march : ℕ → ℕ
month_from_march doy = (5 * doy + 2) / 153

unfoldable pub civil : (ts : ℤ) → Civil
civil ts =
    let days = div_euclid ts 86400 in
    let secs = rem_euclid ts 86400 in
    let doy = day_of_year (day_of_era days) in
    let mp = month_from_march doy in
    record {
      month = if ltb mp 10 then mp + 3 else mp - 9;
      day = doy - (153 * mp + 2) / 5 + 1;
      hour = secs / 3600;
      minute = secs % 3600 / 60;
      weekday = rem_euclid (days +ℤ pos 4) 7;
    }

unfoldable pub matches : Schedule → (ts : ℤ) → Bool
matches s ts =
    let now = civil ts in
    let by_dom = contains s.dom now.day in
    let by_dow = contains s.dow now.weekday in
    if not (contains s.minute now.minute)
    then false
    else if not (contains s.hour now.hour)
    then false
    else if not (contains s.month now.month)
    then false
    else if s.dom_restricted
    then (if s.dow_restricted then by_dom || by_dow else by_dom)
    else if s.dow_restricted
    then by_dow
    else true
