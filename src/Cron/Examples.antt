-- ===== src/Cron/Examples.antt =====
-- Tests of the schedules, and their theorems at concrete inputs.
use tarsk.Base.{
  List, [], arith, contains, false, nat_eq, refl, some, text, true, ℕ, ◌↔◌, ◌∷◌, ◌≡◌, ◌⊎◌,
}
use tarsk.Cron.{add_part, add_parts, civil, parse_field, read_part, read_range, set_bits}
use tarsk.Base.Decimal.{digits_value, parse_below, parse_u32}
use tarsk.Base.Int.{div_euclid, pos, rem_euclid, ◌+ℤ◌}
use tarsk.Base.Splitting.{split, split_once}
use tarsk.Cron.Fields.{Named, set_bits_lem}

quarters : Unit {0}
unfolding parse_field add_parts add_part read_part read_range set_bits split split_once parse_u32
    parse_below digits_value contains
quarters = tt

every-quarter : parse_field (text "*/15") 0 59 ≡ some (45 ∷ 30 ∷ 15 ∷ 0 ∷ [], false)
unfolding quarters
every-quarter = refl

-- 9 September 2001, 01:46:40, a Sunday.
billennium :
    civil (pos 1000000000) ≡ record { month = 9; day = 9; hour = 1; minute = 46; weekday = 0 }
unfolding civil div_euclid rem_euclid ◌+ℤ◌
billennium = refl

set_bits_lem_example :
    (after : List ℕ) × (set_bits 61 0 59 15 [] ≡ some after)
    × ((v : ℕ) → (contains after v ≡ true) ↔ ((contains [] v ≡ true) ⊎ Named 0 59 15 v))
set_bits_lem_example =
    set_bits_lem 61 0 59 15 [] (omega arith) (omega arith) (omega arith) (omega arith)
