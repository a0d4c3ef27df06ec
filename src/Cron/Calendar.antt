-- ===== src/Cron/Calendar.antt =====
-- The civil date and time of an instant.
use tarsk.Base.{arith, ℕ, ◌<◌, ◌≤◌}
use tarsk.Cron.{civil, day_of_era, day_of_year, year_of_era}
use tarsk.Base.Int.{div_euclid, negsuc, pos, rem_euclid, ℤ, ◌+ℤ◌}

rem_euclid-lt : (a : ℤ) (d : ℕ) → 0 < d → rem_euclid a d < d
unfolding rem_euclid
rem_euclid-lt (pos n) d h = omega (arith, h)
rem_euclid-lt (negsuc n) d h = omega (arith, h)

-- A year of the 400 has 365 or 366 days: the day of the year that is left is one of them.
year_of_era-le : (doe : ℕ) → doe ≤ 146096 → year_of_era doe ≤ 399
year_of_era-le doe h = omega arith

day_of_year-le : (doe : ℕ) → doe ≤ 146096 → day_of_year doe ≤ 365
day_of_year-le doe h = omega arith

-- Whatever the instant, the fields are in the ranges that an expression may name: a month from 1 to
-- 12, a day from 1 to 31, an hour below 24, a minute below 60, a weekday below 7.
civil_bounds :
    (ts : ℤ)
    → let now = civil ts in
      (1 ≤ now.month)
      × (now.month ≤ 12)
      × (1 ≤ now.day)
      × (now.day ≤ 31)
      × (now.hour < 24)
      × (now.minute < 60)
      × (now.weekday < 7)
unfolding civil
civil_bounds ts =
    let days = div_euclid ts 86400 in
    let long =
      day_of_year-le (day_of_era days)
        (omega (arith, rem_euclid-lt (days +ℤ pos 719468) 146097 (omega arith))) in
    ground (
      arith,
      long,
      rem_euclid-lt ts 86400 (omega arith),
      rem_euclid-lt (days +ℤ pos 4) 7 (omega arith),
    )
