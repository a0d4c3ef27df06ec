-- ===== src/Ceiling/Examples.antt =====
-- Tests of the memory ceiling, and its theorems at concrete inputs.
use native.Mathlib.Nat.{le-div_iff_mul-le}
use tarsk.Base.{
  List, [], arith, false, leb, ltb, refl, some, true, ℕ, ◌&&◌, ◌*◌, ◌+◌, ◌/◌, ◌<◌, ◌||◌, ◌↔◌, ◌∷◌,
  ◌≡◌, ◌≤◌,
}
use tarsk.Ceiling.{Growth, Learned, Limits, pressure, projected_rss, slot_budget}
use tarsk.Base.Dict.{is_some}
use tarsk.Base.Fixed.{billionths}
use tarsk.Base.Float.{as_secs_f64}
use tarsk.Ceiling.Budget.{Covered, Reading, learn, learn_covers, slot_budget_fits}
use tarsk.Ceiling.Triggers.{Ordered, pressure_fires, rss_reached}

budget-binds : slot_budget 50 (record { bytes = 20; measured = true }) 200 ≡ 7
unfolding slot_budget
budget-binds = refl

slot_budget_fits_example :
    let budget = slot_budget 50 (record { bytes = 20; measured = true }) 200 in
    (50 ≤ 200 → 50 + budget * 20 ≤ 200) × (200 < 50 + (budget + 1) * 20) × (200 ≤ 50 → budget ≡ 0)
slot_budget_fits_example = slot_budget_fits 50 20 200 (omega arith) (omega arith)

abbrev readings : List Reading
readings =
    record { rss = 900; baseline = 100; tasks_done = 3; inflight = 1 }
    ∷ record { rss = 500; baseline = 100; tasks_done = 4; inflight = 0 }
    ∷ []

abbrev nothing_learned : Learned
nothing_learned = record { task_growth = 0; growth_samples = 0 }

learn_covers_example :
    (0 ≤ (learn readings nothing_learned).task_growth)
    × Covered (learn readings nothing_learned).task_growth readings
learn_covers_example = learn_covers readings nothing_learned

billionths-secs : (ns : ℕ) → as_secs_f64 billionths ns ≡ ns
unfolding as_secs_f64
billionths-secs ns = omega arith

billionths-quotient : (a b : ℕ) → leb b 0 ≡ false → leb 1000000000 (a * 1000000000 / b) ≡ leb b a
billionths-quotient a b h =
    let fits : (1000000000 ≤ a * 1000000000 / b) ↔ (1000000000 * b ≤ a * 1000000000) =
      le-div_iff_mul-le (ground (arith, h)) in
    ground (arith, fits)

billionths-Ordered : Ordered billionths
billionths-Ordered = record {
  is_number = λ a. true;
  is_finite = λ a. true;
  finite_number = λ a e. refl;
  less_iff = λ a b n m. ground arith;
  total = λ a b n m h. ground (arith, h);
  leq_trans = λ a b d h k. ground (arith, h, k);
  whole_finite = λ n h. refl;
  whole_leq = λ a b h k. ground arith;
  secs_finite = λ n h. refl;
  secs_leq = λ a b h k. rw (billionths-secs a, billionths-secs b) refl;
  secs_zero = billionths-secs 0;
  quotient_number = λ a b n m h. refl;
  quotient_leq = λ a b n m h. billionths-quotient a b h;
}

abbrev limits : Limits
limits = record {
  max_rss = 5000;
  max_tasks = 10;
  max_lifetime = some 3600000000000;
  warm_multiple = 2;
  hard_max_rss = 8000;
}

abbrev growth : Growth
growth = record { bytes = 100; measured = true }

-- An hour is the limit, and it has passed to the nanosecond.
pressure_fires_example :
    is_some (pressure billionths (some 4000) 7 3 3600000000000 limits growth).trigger
    ≡ rss_reached (some 4000) 3 growth limits
      || (leb 3600000000000 3600000000000 || (ltb 0 10 && leb 10 3))
unfolding projected_rss
pressure_fires_example =
    pressure_fires billionths-Ordered (some 4000) 7 3 3600000000000 limits growth
      (λ bytes e. ground (arith, e)) (omega arith) (omega arith) (omega arith) (omega arith)
      (omega arith, omega arith)
