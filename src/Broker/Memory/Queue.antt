-- ===== src/Broker/Memory/Queue.antt =====
-- The queue of the in-memory broker: who is claimed next, and what a claim does.
-- `rest` is `ready` without the first of its entries that is due at `now`, which is `id`'s.
use tarsk.Base.{
  All, Bool-cases, List, Option, [], arith, false, if◌then◌else◌, inl, inr, nat_eq, none, refl,
  some, suc, true, ℕ, ◌++◌, ◌==◌, ◌∷◌, ◌≡◌, ◌⊎◌,
}
use tarsk.Broker.Memory.{is_due, take_due}

pub data FirstDue (now id : ℕ) : (ready rest : List (ℕ × Option ℕ)) → Type 0 where
  at_head :
      {due : Option ℕ} {rest : List (ℕ × Option ℕ)}
      → is_due now due ≡ true
      → FirstDue now id ((id, due) ∷ rest) rest
  behind :
      {j : ℕ} {due : Option ℕ} {ready rest : List (ℕ × Option ℕ)}
      → is_due now due ≡ false
      → FirstDue now id ready rest
      → FirstDue now id ((j, due) ∷ ready) ((j, due) ∷ rest)

-- `take_due` finds the first entry that is due, and finds none only where none is.
pub take_due_cases :
    (now : ℕ) (ready : List (ℕ × Option ℕ))
    → ((take_due now ready ≡ none) × All (λ entry. is_due now entry.1 ≡ false) ready)
      ⊎ ((id : ℕ) × (rest : List (ℕ × Option ℕ)) × (take_due now ready ≡ some (id, rest))
          × FirstDue now id ready rest)
unfolding take_due
take_due_cases now [] = inl (refl, tt)
take_due_cases now ((j, due) ∷ ready) = elim (Bool-cases (is_due now due)) [
  | inl yes_due ↦ inr (j, ready, rw yes_due, at_head yes_due)
  | inr not_due ↦ elim (take_due_cases now ready) [
    | inl (e, all) ↦ inl (rw (not_due, e), (not_due, all))
    | inr (id, rest, e, first) ↦ inr (id, (j, due) ∷ rest, rw (not_due, e), behind not_due first)
  ]
]

-- How often an id stands in the queue.
unfoldable pub entries : ℕ → List (ℕ × Option ℕ) → ℕ
entries j [] = 0
entries j ((id, due) ∷ ready) = if id == j then suc (entries j ready) else entries j ready

pub entries-FirstDue :
    {now id : ℕ} {ready rest : List (ℕ × Option ℕ)}
    → FirstDue now id ready rest
    → (j : ℕ) → entries j ready ≡ (if id == j then suc (entries j rest) else entries j rest)
unfolding entries
entries-FirstDue (at_head d) j = refl
entries-FirstDue (behind d first) j = ground (arith, entries-FirstDue first j)

pub entries-append :
    (j id : ℕ) (due : Option ℕ) (ready : List (ℕ × Option ℕ))
    → entries j (ready ++ (id, due) ∷ [])
      ≡ (if id == j then suc (entries j ready) else entries j ready)
unfolding entries
entries-append j id due [] = refl
entries-append j id due ((i, d) ∷ ready) = ground (arith, entries-append j id due ready)
