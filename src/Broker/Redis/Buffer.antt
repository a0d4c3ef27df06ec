-- ===== src/Broker/Redis/Buffer.antt =====
-- RedisBroker (broker.rs): nothing that was read is forgotten, and nothing stale is run.
use mathlib.Core.List.{append-nil}
use tarsk.Base.{
  Bool-cases, List, Option, [], ap, false, inl, inr, length, max, none, refl, some, subst, sym,
  true, ℕ, ◌++◌, ◌/◌, ◌∷◌, ◌≡◌, ◌⊎◌,
}
use tarsk.Broker.{Delivery}
use tarsk.Broker.Redis.{Held}
use tarsk.Broker.Redis.Claim.{is_late, next_held}

-- The deliveries of the list have waited too long, with `behind` behind the last of them.
abbrev pub AllLate : {Acker : Type 0} → (times : ℕ → ℕ) → (late behind : List (Held Acker)) → Type 0
AllLate times [] behind = Unit
AllLate times ((d, claimed_at, deadline_ms) ∷ late) behind =
    (is_late (times (length (late ++ behind))) claimed_at deadline_ms ≡ true)
    × AllLate times late behind

-- The batch, halved for each delivery that was dropped.
abbrev pub halved : {Acker : Type 0} → (late : List (Held Acker)) → (prefetch : ℕ) → ℕ
halved [] prefetch = prefetch
halved (h ∷ late) prefetch = halved late (max (prefetch / 2) 1)

-- What the buffer gives: everything in it is late, or the first that is not is handed out.
abbrev pub Given :
    {Acker : Type 0}
    → (times : ℕ → ℕ) → (held : List (Held Acker)) → (prefetch : ℕ)
    → Option (Delivery Acker) × List (Held Acker) × ℕ
    → Type 0
Given {Acker} times held prefetch given =
    ((given ≡ (none, [], halved held prefetch)) × AllLate times held [])
    ⊎ ((late : List (Held Acker)) × (d : Delivery Acker) × (claimed_at deadline_ms : ℕ)
        × (behind : List (Held Acker)) × (held ≡ late ++ (d, claimed_at, deadline_ms) ∷ behind)
        × AllLate times late ((d, claimed_at, deadline_ms) ∷ behind)
        × (is_late (times (length behind)) claimed_at deadline_ms ≡ false)
        × (given ≡ (some d, behind, halved late prefetch)))

Given-later :
    {Acker : Type 0} (times : ℕ → ℕ) (d : Delivery Acker) (claimed_at deadline_ms : ℕ)
    (held : List (Held Acker)) (prefetch : ℕ)
    (given : Option (Delivery Acker) × List (Held Acker) × ℕ)
    → is_late (times (length held)) claimed_at deadline_ms ≡ true
    → Given times held (max (prefetch / 2) 1) given
    → Given times ((d, claimed_at, deadline_ms) ∷ held) prefetch given
Given-later times d claimed_at deadline_ms held prefetch given late (inl (all, stale)) = inl (
  all,
  (
    subst (λ xs. is_late (times (length xs)) claimed_at deadline_ms ≡ true) (sym (append-nil held))
        late,
    stale,
  ),
)
Given-later times d claimed_at deadline_ms held prefetch given late
      (inr (others, e, at, deadline, behind, parts, stale, fresh, path)) =
    inr (
      (d, claimed_at, deadline_ms) ∷ others,
      e,
      at,
      deadline,
      behind,
      ap (λ xs. (d, claimed_at, deadline_ms) ∷ xs) parts,
      (subst (λ xs. is_late (times (length xs)) claimed_at deadline_ms ≡ true) parts late, stale),
      fresh,
      path,
    )

-- The first delivery of the buffer that has not outwaited its lease is handed out. Each one in front
-- of it has, and is dropped, and halves the batch of the next read, which stays at least one; what
-- is behind it stays.
pub next_held-Given :
    {Acker : Type 0} (times : ℕ → ℕ) (held : List (Held Acker)) (prefetch : ℕ)
    → Given times held prefetch (next_held times held prefetch)
unfolding next_held
next_held-Given times [] prefetch = inl (refl, tt)
next_held-Given times ((d, claimed_at, deadline_ms) ∷ held) prefetch =
    elim (Bool-cases (is_late (times (length held)) claimed_at deadline_ms)) [
      | inl late ↦ rw late (
          Given-later times d claimed_at deadline_ms held prefetch _ late
            (next_held-Given times held (max (prefetch / 2) 1)))
      | inr fresh ↦ rw fresh (inr ([], d, claimed_at, deadline_ms, held, refl, tt, fresh, refl))
    ]
