-- ===== src/Metrics/Histogram.antt =====
-- What the metrics of a run are, by an independent count of the tasks that it settled.
-- One settled task: its name, whether it succeeded, and how long it took.
use native.Mathlib.Nat.{mod-eq_of_lt}
use tarsk.Base.{
  Bool, Bool-cases, List, Option, Text, [], ap, arith, false, if◌then◌else◌, inl, inr, length, map,
  map-ext, not, refl, suc, text_eq, true, ℕ, ◌&&◌, ◌+◌, ◌<◌, ◌==◌, ◌^◌, ◌∙◌, ◌∷◌, ◌≡◌, ◌≤◌,
}
use tarsk.Metrics.{Metrics, buckets, count_into, observe, tally, within}
use tarsk.Base.Dict.{lookup, lookup-insert, or_else}

pub record Settled : Type 0 where
  pub task : Text
  pub succeeded : Bool
  pub elapsed : ℕ

unfoldable pub observe_all : List Settled → Metrics → Metrics
observe_all [] m = m
observe_all (d ∷ ds) m = observe_all ds (observe d.task d.succeeded d.elapsed m)

-- How many took no longer than a bound.
pub count_within : List Settled → Option ℕ → ℕ
count_within [] upper = 0
count_within (d ∷ ds) upper =
    let rest = count_within ds upper in if within d.elapsed upper then suc rest else rest

count_within-le : (ds : List Settled) (upper : Option ℕ) → count_within ds upper ≤ length ds
unfolding count_within
count_within-le [] upper = omega arith
count_within-le (d ∷ ds) upper = ground (arith, count_within-le ds upper)

abbrev one_if : Bool → ℕ
one_if true = 1
one_if false = 0

count_into-map :
    (elapsed : ℕ) (f : Option ℕ → ℕ) (uppers : List (Option ℕ))
    → ((upper : Option ℕ) → f upper + 1 < 2 ^ 64)
    → count_into elapsed (map f uppers) uppers
      ≡ map (λ upper. f upper + one_if (within elapsed upper)) uppers
unfolding count_into
count_into-map elapsed f [] small = refl
count_into-map elapsed f (u ∷ us) small = elim (Bool-cases (within elapsed u)) [
  | inl inside ↦
      rw (inside, count_into-map elapsed f us small)
        (ap (λ n. n ∷ map (λ upper. f upper + one_if (within elapsed upper)) us)
          (mod-eq_of_lt (small u)))
  | inr outside ↦
      rw (outside, count_into-map elapsed f us small)
        (ap (λ n. n ∷ map (λ upper. f upper + one_if (within elapsed upper)) us) (omega arith))
]

histogram-observe_all :
    (ds : List Settled) (m : Metrics) (f : Option ℕ → ℕ)
    → ((upper : Option ℕ) → f upper + length ds < 2 ^ 64)
    → m.histogram ≡ map f buckets
    → (observe_all ds m).histogram ≡ map (λ upper. f upper + count_within ds upper) buckets
unfolding observe_all observe count_within
histogram-observe_all [] m f small h =
    h ∙ map-ext f (λ upper. f upper + 0) buckets (λ upper. omega arith)
histogram-observe_all (d ∷ ds) m f small h =
    histogram-observe_all ds (observe d.task d.succeeded d.elapsed m)
      (λ upper. f upper + one_if (within d.elapsed upper)) (λ upper. ground (arith, small upper))
      (ap (λ counts. count_into d.elapsed counts buckets) h
        ∙ count_into-map d.elapsed f buckets (λ upper. omega (arith, small upper)))
    ∙ map-ext (λ upper. f upper + one_if (within d.elapsed upper) + count_within ds upper)
        (λ upper. f upper + count_within (d ∷ ds) upper) buckets (λ upper. ground arith)

-- A fresh set of counters: `Metrics::default()`.
abbrev pub no_metrics : Metrics
no_metrics = record {
  tasks = [];
  histogram = map (λ upper. 0) buckets;
  duration_sum = 0;
  duration_count = 0;
  child_rss = [];
  depth = [];
}

sum_elapsed : List Settled → ℕ
sum_elapsed [] = 0
sum_elapsed (d ∷ ds) = d.elapsed + sum_elapsed ds

-- After fewer than 2^64 settled tasks each bucket of the histogram holds the number of tasks that
-- took no longer than its bound, so the last one holds them all.
pub histogram_counts :
    (ds : List Settled)
    → length ds < 2 ^ 64
    → (observe_all ds no_metrics).histogram ≡ map (count_within ds) buckets
histogram_counts ds small =
    histogram-observe_all ds no_metrics (λ upper. 0) (λ upper. omega arith) refl
    ∙ map-ext (λ upper. 0 + count_within ds upper) (count_within ds) buckets (λ upper. omega arith)

abbrev pub agrees : Bool → Bool → Bool
agrees true b = b
agrees false b = not b

-- How often a task ended in this way.
unfoldable pub ended : Text → Bool → List Settled → ℕ
ended task succeeded [] = 0
ended task succeeded (d ∷ ds) =
    let rest = ended task succeeded ds in
    if d.task == task && agrees d.succeeded succeeded then suc rest else rest

abbrev counted : Text → Metrics → ℕ × ℕ
counted task m = or_else (0, 0) (lookup task m.tasks)

tasks-observe_all :
    (ds : List Settled) (m : Metrics) (task : Text)
    → (counted task m).0 + length ds < 2 ^ 64
    → (counted task m).1 + length ds < 2 ^ 64
    → counted task (observe_all ds m)
      ≡ ((counted task m).0 + ended task true ds, (counted task m).1 + ended task false ds)
unfolding observe_all observe ended
tasks-observe_all [] m task h k = ground arith
tasks-observe_all (d ∷ ds) m task h k = ground (
  arith,
  tasks-observe_all ds (observe d.task d.succeeded d.elapsed m) task,
  lookup-insert d.task task (tally d.succeeded (or_else (0, 0) (lookup d.task m.tasks))) m.tasks,
  text_eq.beq_iff d.task task,
)

-- For each task the two counts are how often it succeeded and how often it failed.
tasks_counts :
    (ds : List Settled) (task : Text)
    → length ds < 2 ^ 64
    → or_else (0, 0) (lookup task (observe_all ds no_metrics).tasks)
      ≡ (ended task true ds, ended task false ds)
unfolding lookup
tasks_counts ds task small =
    tasks-observe_all ds no_metrics task (omega arith) (omega arith) ∙ ground arith
