-- ===== src/Ceiling/Triggers.antt =====
-- When a child is retired. What the code relies on of `f64` is a record of hypotheses, which IEEE
-- arithmetic fulfils: only numbers that are not NaN are ordered, whole numbers below 2^53 are exact,
-- the seconds of durations below 2^20 seconds are ordered as their nanoseconds are, since
-- neighbouring numbers there are closer than a nanosecond, and a correctly rounded quotient reaches 1
-- exactly when the dividend reaches the divisor.
use tarsk.Base.{
  Bool, Bool-cases, Option, ap, arith, false, inl, inr, leb, ltb, none, not, refl, some, sym, true,
  ℕ, ◌&&◌, ◌*◌, ◌<◌, ◌^◌, ◌||◌, ◌∙◌, ◌≡◌,
}
use tarsk.Ceiling.{
  Growth, Limits, Reason, by_lifetime, by_rss, by_tasks, max_lifetime_reason, max_rss_reason,
  pressure, projected_rss, rss_read, worse,
}
use tarsk.Base.Dict.{is_some}
use tarsk.Base.Float.{Float, as_secs_f64}

-- 2^20 seconds, in nanoseconds.
abbrev pub longest : ℕ
longest = 2 ^ 20 * 1000000000

pub record Ordered (fl : Float) : Type 0 where
  pub is_number : fl.F64 → Bool
  pub is_finite : fl.F64 → Bool
  pub finite_number : (a : fl.F64) → is_finite a ≡ true → is_number a ≡ true
  pub less_iff :
      (a b : fl.F64) → is_number a ≡ true → is_number b ≡ true → fl.less a b ≡ not (fl.leq b a)
  pub total :
      (a b : fl.F64)
      → is_number a ≡ true
      → is_number b ≡ true
      → fl.leq a b ≡ false
      → fl.leq b a ≡ true
  pub leq_trans : (a b c : fl.F64) → fl.leq a b ≡ true → fl.leq b c ≡ true → fl.leq a c ≡ true
  pub whole_finite : (n : ℕ) → n < 2 ^ 53 → is_finite (fl.of_ℕ n) ≡ true
  pub whole_leq : (a b : ℕ) → a < 2 ^ 53 → b < 2 ^ 53 → fl.leq (fl.of_ℕ a) (fl.of_ℕ b) ≡ leb a b
  pub secs_finite : (ns : ℕ) → ns < longest → is_finite (as_secs_f64 fl ns) ≡ true
  pub secs_leq :
      (a b : ℕ) → a < longest → b < longest → fl.leq (as_secs_f64 fl a) (as_secs_f64 fl b) ≡ leb a b
  pub secs_zero : as_secs_f64 fl 0 ≡ fl.of_ℕ 0
  pub quotient_number :
      (a b : fl.F64)
      → is_finite a ≡ true
      → is_finite b ≡ true
      → fl.leq b (fl.of_ℕ 0) ≡ false
      → is_number (fl.div a b) ≡ true
  pub quotient_leq :
      (a b : fl.F64)
      → is_finite a ≡ true
      → is_finite b ≡ true
      → fl.leq b (fl.of_ℕ 0) ≡ false
      → fl.leq (fl.of_ℕ 1) (fl.div a b) ≡ fl.leq b a

-- Is there a reading, and does it with the next task reach the ceiling?
abbrev pub rss_reached : Option ℕ → ℕ → Growth → Limits → Bool
rss_reached none tasks_done growth limits = false
rss_reached (some bytes) tasks_done growth limits =
    ltb 0 limits.max_rss && leb limits.max_rss (projected_rss bytes growth tasks_done)

abbrev pub lifetime_reached : (elapsed : ℕ) → Option ℕ → Bool
lifetime_reached elapsed none = false
lifetime_reached elapsed (some limit) = leb limit elapsed

abbrev pub tasks_reached : ℕ → Limits → Bool
tasks_reached tasks_done limits = ltb 0 limits.max_tasks && leb limits.max_tasks tasks_done

-- A limit of the lifetime is set, and is a duration that is not too long.
abbrev pub IsLifetime : Option ℕ → Type 0
IsLifetime none = Unit
IsLifetime (some limit) = (0 < limit) × (limit < longest)

module _ {fl : Float} (laws : Ordered fl) where
  open fl use {F64, of_ℕ, leq, less, div}

  -- The ratio is a number, and has reached 1 or not.
  abbrev Reaches : F64 → Bool → Type 0
  Reaches ratio reached = (laws.is_number ratio ≡ true) × (leq (of_ℕ 1) ratio ≡ reached)

  Reaches-quotient :
      (a b : F64) (reached : Bool)
      → laws.is_finite a ≡ true
      → laws.is_finite b ≡ true
      → leq b (of_ℕ 0) ≡ false
      → leq b a ≡ reached
      → Reaches (div a b) reached
  Reaches-quotient a b reached finite finite' positive order = (
    laws.quotient_number a b finite finite' positive,
    laws.quotient_leq a b finite finite' positive ∙ order,
  )

  Reaches-whole :
      (a b : ℕ) → 0 < b → a < 2 ^ 53 → b < 2 ^ 53 → Reaches (div (of_ℕ a) (of_ℕ b)) (leb b a)
  Reaches-whole a b positive small small' =
      Reaches-quotient (of_ℕ a) (of_ℕ b) (leb b a) (laws.whole_finite a small)
        (laws.whole_finite b small')
        (laws.whole_leq b 0 small' (omega arith) ∙ ground (arith, positive))
        (laws.whole_leq b a small' small)

  Reaches-secs :
      (a b : ℕ)
      → 0 < b
      → a < longest
      → b < longest
      → Reaches (div (as_secs_f64 fl a) (as_secs_f64 fl b)) (leb b a)
  Reaches-secs a b positive small small' =
      Reaches-quotient (as_secs_f64 fl a) (as_secs_f64 fl b) (leb b a) (laws.secs_finite a small)
        (laws.secs_finite b small')
        (ap (leq (as_secs_f64 fl b)) (sym laws.secs_zero)
          ∙ laws.secs_leq b 0 small' (omega arith)
          ∙ ground (arith, positive))
        (laws.secs_leq b a small' small)

  Reaches-zero : Reaches (of_ℕ 0) false
  Reaches-zero = (
    laws.finite_number (of_ℕ 0) (laws.whole_finite 0 (omega arith)),
    laws.whole_leq 1 0 (omega arith) (omega arith),
  )

  -- Taking the worse of two ratios reaches 1 exactly when one of them does.
  Reaches-worse :
      (ratio : F64) (why : Reason) (worst : F64 × Reason) (now before : Bool)
      → Reaches ratio now
      → Reaches worst.0 before
      → Reaches (worse fl ratio why worst).0 (now || before)
  Reaches-worse ratio why worst now before (number, reach) (number', reach') = (
    ground (arith, number, number'),
    ground (
      arith,
      number,
      number',
      reach,
      reach',
      laws.less_iff worst.0 ratio,
      laws.total worst.0 ratio,
      laws.leq_trans (of_ℕ 1) worst.0 ratio,
      laws.leq_trans (of_ℕ 1) ratio worst.0,
    ),
  )

  Reaches-by_tasks :
      (tasks_done : ℕ) (limits : Limits)
      → tasks_done < 2 ^ 53
      → limits.max_tasks < 2 ^ 53
      → Reaches (by_tasks fl tasks_done limits).0 (tasks_reached tasks_done limits)
  Reaches-by_tasks tasks_done limits small small' = elim (Bool-cases (ltb 0 limits.max_tasks)) [
    | inl set ↦
        rw set (Reaches-whole tasks_done limits.max_tasks (ground (arith, set)) small small')
    | inr unset ↦ rw unset Reaches-zero
  ]

  Reaches-by_lifetime :
      (elapsed : ℕ) (limit : Option ℕ) (worst : F64 × Reason) (before : Bool)
      → elapsed < longest
      → IsLifetime limit
      → Reaches worst.0 before
      → Reaches (by_lifetime fl elapsed limit worst).0 (lifetime_reached elapsed limit || before)
  Reaches-by_lifetime elapsed none worst before short lifetime reach = reach
  Reaches-by_lifetime elapsed (some limit) worst before short (positive, short') reach =
      Reaches-worse (div (as_secs_f64 fl elapsed) (as_secs_f64 fl limit)) max_lifetime_reason worst
        (leb limit elapsed) before (Reaches-secs elapsed limit positive short short') reach

  Reaches-by_rss :
      (read : Option ℕ) (tasks_done : ℕ) (growth : Growth) (limits : Limits) (worst : F64 × Reason)
      (before : Bool)
      → ((bytes : ℕ) → read ≡ some bytes → projected_rss bytes growth tasks_done < 2 ^ 53)
      → limits.max_rss < 2 ^ 53
      → Reaches worst.0 before
      → Reaches
          (by_rss fl read tasks_done growth limits worst).0
          (rss_reached read tasks_done growth limits || before)
  Reaches-by_rss none tasks_done growth limits worst before small small' reach = reach
  Reaches-by_rss (some bytes) tasks_done growth limits worst before small small' reach =
      let projected = projected_rss bytes growth tasks_done in
      elim (Bool-cases (ltb 0 limits.max_rss)) [
        | inl set ↦ rw set (
            Reaches-worse (div (of_ℕ projected) (of_ℕ limits.max_rss)) max_rss_reason worst
              (leb limits.max_rss projected) before
              (Reaches-whole projected limits.max_rss (ground (arith, set)) (small bytes refl)
                small')
              reach)
        | inr unset ↦ rw unset reach
      ]

  -- A child is retired exactly when one of its limits is reached: its tasks, its lifetime, or the
  -- memory that it will hold once the next task is added. The readings and limits of tasks and
  -- memory are below 2^53, the lifetime and its limit below 2^20 seconds, and a limit of the lifetime
  -- is not zero.
  pub pressure_fires :
      (read : Option ℕ) (pid tasks_done elapsed : ℕ) (limits : Limits) (growth : Growth)
      → ((bytes : ℕ)
          → rss_read fl pid limits read ≡ some bytes
          → projected_rss bytes growth tasks_done < 2 ^ 53)
      → limits.max_rss < 2 ^ 53
      → tasks_done < 2 ^ 53
      → limits.max_tasks < 2 ^ 53
      → elapsed < longest
      → IsLifetime limits.max_lifetime
      → is_some (pressure fl read pid tasks_done elapsed limits growth).trigger
        ≡ rss_reached (rss_read fl pid limits read) tasks_done growth limits
          || (lifetime_reached elapsed limits.max_lifetime || tasks_reached tasks_done limits)
  unfolding pressure
  pressure_fires read pid tasks_done elapsed limits growth small small' few few' short lifetime =
      let (number, reach) =
        Reaches-by_rss (rss_read fl pid limits read) tasks_done growth limits
          (by_lifetime fl elapsed limits.max_lifetime (by_tasks fl tasks_done limits))
          (lifetime_reached elapsed limits.max_lifetime || tasks_reached tasks_done limits) small
          small'
          (Reaches-by_lifetime elapsed limits.max_lifetime (by_tasks fl tasks_done limits)
            (tasks_reached tasks_done limits) short lifetime
            (Reaches-by_tasks tasks_done limits few few')) in
      ground (arith, reach)
