-- ===== src/Ceiling/Budget.antt =====
-- What the slot budget promises, and what the running estimate knows.
use native.Mathlib.Nat.{mod-eq_of_lt}
use tarsk.Base.{
  All, Bool-cases, List, [], ap, arith, false, inl, inr, nat_eq, none, some, true, ℕ, ◌*◌, ◌+◌, ◌-◌,
  ◌/◌, ◌<◌, ◌==◌, ◌^◌, ◌||◌, ◌∷◌, ◌≡◌, ◌≤◌, ◌⊎◌,
}
use tarsk.Broker.{u64}
use tarsk.Ceiling.{Learned, observe_growth, per_task_growth, slot_budget}

-- With a ceiling set and a positive cost measured, the budget is the largest number of tasks of
-- that cost that fit below the ceiling on top of the reading; at or past the ceiling it is zero.
pub slot_budget_fits :
    (rss bytes max_rss : ℕ)
    → 0 < max_rss
    → 0 < bytes
    → let budget = slot_budget rss (record { bytes = bytes; measured = true }) max_rss in
      (rss ≤ max_rss → rss + budget * bytes ≤ max_rss)
      × (max_rss < rss + (budget + 1) * bytes)
      × (max_rss ≤ rss → budget ≡ 0)
unfolding slot_budget
slot_budget_fits rss bytes max_rss h k = (λ under. grind arith, grind arith, λ over. grind arith)

div_bounds : (n t : ℕ) → 0 < t → (n / t * t ≤ n) × (n < (n / t + 1) * t)
div_bounds n t h = (grind arith, grind arith)

answered :
    (rss baseline tasks_done inflight : ℕ)
    → tasks_done + inflight < 2 ^ 64
    → (u64 (tasks_done + inflight) == 0 || baseline == 0) ≡ false
    → (0 < tasks_done + inflight) × (0 < baseline)
answered rss baseline tasks_done inflight room h = ground arith

-- A reading answers exactly when some task has touched the child and a baseline was taken. What it
-- answers, charged to every one of those tasks, never exceeds the growth above the baseline, and
-- one byte more would.
pub per_task_growth_lem :
    (rss baseline tasks_done inflight : ℕ)
    → tasks_done + inflight < 2 ^ 64
    → ((per_task_growth rss baseline tasks_done inflight ≡ none)
        × ((tasks_done + inflight ≡ 0) ⊎ (baseline ≡ 0)))
      ⊎ ((bytes : ℕ) × (per_task_growth rss baseline tasks_done inflight ≡ some bytes)
          × (0 < tasks_done + inflight)
          × (0 < baseline)
          × (bytes * (tasks_done + inflight) ≤ rss - baseline)
          × (rss - baseline < (bytes + 1) * (tasks_done + inflight)))
unfolding per_task_growth
per_task_growth_lem rss baseline tasks_done inflight room =
    elim (Bool-cases (u64 (tasks_done + inflight) == 0 || baseline == 0)) [
      | inl nothing ↦ inl (rw nothing, ground arith)
      | inr answer ↦
          let (positive, some_base) = answered rss baseline tasks_done inflight room answer in
          let (low, high) = div_bounds (rss - baseline) (tasks_done + inflight) positive in
          inr (
            (rss - baseline) / (tasks_done + inflight),
            rw answer (ap (λ t. some ((rss - baseline) / t)) (mod-eq_of_lt room)),
            positive,
            some_base,
            low,
            high,
          )
    ]

-- One reading of one child.
pub record Reading : Type 0 where
  pub rss : ℕ
  pub baseline : ℕ
  pub tasks_done : ℕ
  pub inflight : ℕ

pub learn : List Reading → Learned → Learned
learn [] l = l
learn (r ∷ rs) l = learn rs (observe_growth r.rss r.baseline r.tasks_done r.inflight l)

-- What every reading of a list showed is at most `bytes`.
abbrev pub Covered : ℕ → List Reading → Type 0
Covered bytes =
    All λ r. (g : ℕ) → per_task_growth r.rss r.baseline r.tasks_done r.inflight ≡ some g → g ≤ bytes

observe_growth_mono :
    (r : Reading) (l : Learned)
    → l.task_growth ≤ (observe_growth r.rss r.baseline r.tasks_done r.inflight l).task_growth
unfolding observe_growth
observe_growth_mono r l = ground arith

learn_mono : (rs : List Reading) (l : Learned) → l.task_growth ≤ (learn rs l).task_growth
unfolding learn
learn_mono [] l = omega arith
learn_mono (r ∷ rs) l = omega (
  arith,
  observe_growth_mono r l,
  learn_mono rs (observe_growth r.rss r.baseline r.tasks_done r.inflight l),
)

observe_growth-covers :
    (r : Reading) (l : Learned) (g : ℕ)
    → per_task_growth r.rss r.baseline r.tasks_done r.inflight ≡ some g
    → g ≤ (observe_growth r.rss r.baseline r.tasks_done r.inflight l).task_growth
unfolding observe_growth
observe_growth-covers r l g e = rw (e, observe_growth) (omega arith)

-- The estimate never falls, whatever readings come in whatever order, and is at least what every
-- one of them showed: one costly task is never averaged away.
pub learn_covers :
    (rs : List Reading) (l : Learned)
    → (l.task_growth ≤ (learn rs l).task_growth) × Covered (learn rs l).task_growth rs
unfolding learn
learn_covers [] l = (omega arith, tt)
learn_covers (r ∷ rs) l =
    let l' = observe_growth r.rss r.baseline r.tasks_done r.inflight l in
    (
      learn_mono (r ∷ rs) l,
      (
        (λ g e. omega (arith, observe_growth-covers r l g e, learn_mono rs l')),
        (learn_covers rs l').1,
      ),
    )
