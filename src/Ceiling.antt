-- ===== src/Ceiling.antt =====
-- The memory ceiling of crates/tarsk-core/src/lib.rs: what a task costs, how many tasks a child may
-- hold, when a child is retired and when its replacement is started.
pub mod Budget
pub mod Triggers
mod Examples
use tarsk.Base.{
  Bool, Eq, Option, Text, ap, false, if◌then◌else◌, ltb, max, min, nat_eq, none, not, refl, some,
  sym, text, true, ℕ, ◌&&◌, ◌+◌, ◌-◌, ◌/◌, ◌==◌, ◌||◌, ◌↔◌, ◌∙◌, ◌≡◌,
}
use tarsk.Broker.{u64}
use tarsk.Base.Float.{Float, as_secs_f64}

abbrev pub u64_max : ℕ
u64_max = 18446744073709551615

-- `usize` is 64 bits wide.
abbrev pub usize_max : ℕ
usize_max = u64_max

pub record Growth : Type 0 where
  pub bytes : ℕ
  pub measured : Bool

abbrev pub cold_start_slots : ℕ
cold_start_slots = 4

pub per_task_growth : (rss baseline tasks_done inflight : ℕ) → Option ℕ
per_task_growth rss baseline tasks_done inflight =
    let tasks = u64 (tasks_done + inflight) in
    if tasks == 0 || baseline == 0 then none else some ((rss - baseline) / tasks)

unfoldable pub projected_rss : ℕ → Growth → (tasks_done : ℕ) → ℕ
projected_rss rss growth tasks_done =
    if tasks_done == 0 then rss else min (rss + growth.bytes) u64_max

pub slot_budget : ℕ → Growth → (max_rss : ℕ) → ℕ
slot_budget rss growth max_rss =
    if max_rss == 0
    then usize_max
    else if not growth.measured
    then cold_start_slots
    else if growth.bytes == 0
    then usize_max
    else (max_rss - rss) / growth.bytes

-- The two atomics of `Shared` behind the estimate.
pub record Learned : Type 0 where
  pub task_growth : ℕ
  pub growth_samples : ℕ

unfoldable pub growth_estimate : Learned → Growth
growth_estimate l = record { bytes = l.task_growth; measured = ltb 0 l.growth_samples }

pub observe_growth : (rss baseline tasks_done inflight : ℕ) → Learned → Learned
observe_growth rss baseline tasks_done inflight l =
    elim (per_task_growth rss baseline tasks_done inflight) [
      | none ↦ l
      | some per_task ↦ record {
        task_growth = max l.task_growth per_task;
        growth_samples = max l.growth_samples tasks_done;
      }
    ]

-- The limits of `Cfg` that the ceiling reads. A `Duration` is in nanoseconds.
pub record Limits : Type 0 where
  pub max_rss : ℕ
  pub max_tasks : ℕ
  pub max_lifetime : Option ℕ
  pub warm_multiple : ℕ
  pub hard_max_rss : ℕ

pub data Reason : Type 0 where
  no_reason max_tasks_reason max_lifetime_reason max_rss_reason hard_max_rss_reason : Reason

-- The reasons are words in the source.
unfoldable pub reason_text : Reason → Text
reason_text no_reason = text ""
reason_text max_tasks_reason = text "max_tasks"
reason_text max_lifetime_reason = text "max_lifetime"
reason_text max_rss_reason = text "max_rss"
reason_text hard_max_rss_reason = text "hard_max_rss"

abbrev reason_number : Reason → ℕ
reason_number no_reason = 0
reason_number max_tasks_reason = 1
reason_number max_lifetime_reason = 2
reason_number max_rss_reason = 3
reason_number hard_max_rss_reason = 4

abbrev reason_numbered : ℕ → Reason
reason_numbered n =
    if n == 0
    then no_reason
    else if n == 1
    then max_tasks_reason
    else if n == 2
    then max_lifetime_reason
    else if n == 3
    then max_rss_reason
    else hard_max_rss_reason

reason_numbered-reason_number : (r : Reason) → reason_numbered (reason_number r) ≡ r
reason_numbered-reason_number no_reason = refl
reason_numbered-reason_number max_tasks_reason = refl
reason_numbered-reason_number max_lifetime_reason = refl
reason_numbered-reason_number max_rss_reason = refl
reason_numbered-reason_number hard_max_rss_reason = refl

abbrev pub reason_beq : Reason → Reason → Bool
reason_beq r q = reason_number r == reason_number q

pub reason_beq_iff : (r q : Reason) → (reason_beq r q ≡ true) ↔ (r ≡ q)
reason_beq_iff r q = (
  λ same.
      sym (reason_numbered-reason_number r)
      ∙ ap reason_numbered ((nat_eq.beq_iff (reason_number r) (reason_number q)).0 same)
      ∙ reason_numbered-reason_number q,
  λ same. (nat_eq.beq_iff (reason_number r) (reason_number q)).1 (ap reason_number same),
)

instance abbrev pub reason_eq : Eq Reason
reason_eq = record { beq = reason_beq; beq_iff = reason_beq_iff }

module _ (fl : Float) where
  open fl use {F64, of_ℕ, sub, mul, div, leq, less}

  pub record Pressure : Type 0 where
    pub trigger : Option Reason
    pub consumed : F64
    pub rss : Option ℕ

  -- `if ratio > worst.0 { worst = (ratio, reason) }`
  abbrev pub worse : F64 → Reason → F64 × Reason → F64 × Reason
  worse ratio reason worst = if less worst.0 ratio then (ratio, reason) else worst

  abbrev pub by_tasks : ℕ → Limits → F64 × Reason
  by_tasks tasks_done limits =
      if ltb 0 limits.max_tasks
      then (div (of_ℕ tasks_done) (of_ℕ limits.max_tasks), max_tasks_reason)
      else (of_ℕ 0, no_reason)

  abbrev pub by_lifetime : ℕ → Option ℕ → F64 × Reason → F64 × Reason
  by_lifetime elapsed none worst = worst
  by_lifetime elapsed (some limit) worst =
      worse (div (as_secs_f64 fl elapsed) (as_secs_f64 fl limit)) max_lifetime_reason worst

  abbrev pub by_rss : Option ℕ → ℕ → Growth → Limits → F64 × Reason → F64 × Reason
  by_rss none tasks_done growth limits worst = worst
  by_rss (some bytes) tasks_done growth limits worst =
      if ltb 0 limits.max_rss
      then worse (div (of_ℕ (projected_rss bytes growth tasks_done)) (of_ℕ limits.max_rss))
          max_rss_reason worst
      else worst

  -- `read` is what `child_rss_with` answers; it is called only where a ceiling could act on it.
  abbrev pub rss_read : (pid : ℕ) → Limits → Option ℕ → Option ℕ
  rss_read pid limits read =
      if not (pid == 0) && (ltb 0 limits.max_rss || ltb 0 limits.hard_max_rss) then read else none

  unfoldable pub pressure :
      (read : Option ℕ) (pid tasks_done elapsed : ℕ) → Limits → Growth → Pressure
  unfolding projected_rss
  pressure read pid tasks_done elapsed limits growth =
      let rss = rss_read pid limits read in
      let worst =
        by_rss rss tasks_done growth limits
          (by_lifetime elapsed limits.max_lifetime (by_tasks tasks_done limits)) in
      record {
        trigger = if leq (of_ℕ 1) worst.0 then some worst.1 else none;
        consumed = worst.0;
        rss = rss;
      }

  pub should_warm : Pressure → (elapsed spawn : ℕ) → Limits → Bool
  should_warm p elapsed spawn limits =
      if leq p.consumed (of_ℕ 0)
      then false
      else leq (div (mul (as_secs_f64 fl elapsed) (sub (of_ℕ 1) p.consumed)) p.consumed)
          (mul (as_secs_f64 fl spawn) (of_ℕ limits.warm_multiple))
