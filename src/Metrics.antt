-- ===== src/Metrics.antt =====
-- The counters of crates/tarsk-core/src/metrics.rs. A duration is a whole number of nanoseconds
-- and so are the bounds of the buckets: for those, comparing the numbers of seconds as `f64` gives
-- the same answers. The sum of the durations is exact here and rounded in the code.
pub mod Histogram
pub mod Exposition
pub mod Labels
mod Examples
use tarsk.Base.{
  Bool, List, Option, Text, [], false, if◌then◌else◌, leb, nat_eq, none, some, text_eq, true, ℕ,
  ◌+◌, ◌∷◌,
}
use tarsk.Broker.{u64}
use tarsk.Base.Dict.{Dict, insert, lookup, or_else, remove}

-- `BUCKETS`, with `none` for infinity.
abbrev pub buckets : List (Option ℕ)
buckets =
    some 5000000
    ∷ some 10000000
    ∷ some 25000000
    ∷ some 50000000
    ∷ some 100000000
    ∷ some 250000000
    ∷ some 500000000
    ∷ some 1000000000
    ∷ some 2500000000
    ∷ some 5000000000
    ∷ some 10000000000
    ∷ some 30000000000
    ∷ some 60000000000
    ∷ some 300000000000
    ∷ none
    ∷ []

pub record Metrics : Type 0 where
  pub tasks : Dict Text (ℕ × ℕ)
  pub histogram : List ℕ
  pub duration_sum : ℕ
  pub duration_count : ℕ
  pub child_rss : Dict ℕ ℕ
  pub depth : List (Text × (ℕ × ℕ × ℕ × ℕ))

abbrev pub within : ℕ → Option ℕ → Bool
within elapsed none = true
within elapsed (some upper) = leb elapsed upper

-- The `zip` of the counts with the bounds: the shorter list ends it.
unfoldable pub count_into : ℕ → List ℕ → List (Option ℕ) → List ℕ
count_into elapsed [] uppers = []
count_into elapsed (n ∷ counts) [] = n ∷ counts
count_into elapsed (n ∷ counts) (upper ∷ uppers) =
    let rest = count_into elapsed counts uppers in
    if within elapsed upper then u64 (n + 1) ∷ rest else n ∷ rest

abbrev pub tally : Bool → ℕ × ℕ → ℕ × ℕ
tally true (succeeded, failed) = (u64 (succeeded + 1), failed)
tally false (succeeded, failed) = (succeeded, u64 (failed + 1))

unfoldable pub observe : Text → Bool → ℕ → Metrics → Metrics
unfolding count_into
observe task succeeded elapsed m = record m {
  histogram = count_into elapsed m.histogram buckets;
  duration_sum = m.duration_sum + elapsed;
  duration_count = u64 (m.duration_count + 1);
  tasks = insert task (tally succeeded (or_else (0, 0) (lookup task m.tasks))) m.tasks;
}

unfoldable pub set_depth : List (Text × (ℕ × ℕ × ℕ × ℕ)) → Metrics → Metrics
set_depth rows m = record m { depth = rows }

unfoldable pub set_child_rss : (pid bytes : ℕ) → Metrics → Metrics
set_child_rss pid bytes m = record m { child_rss = insert pid bytes m.child_rss }

unfoldable pub forget_child : ℕ → Metrics → Metrics
forget_child pid m = record m { child_rss = remove pid m.child_rss }
