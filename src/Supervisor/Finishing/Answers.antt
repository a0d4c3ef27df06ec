-- ===== src/Supervisor/Finishing/Answers.antt =====
-- What a report says of each task.
use tarsk.Base.{
  All, Bool-cases, Option-cases, [], ap, arith, beq_cases, if◌then◌else◌, inl, inr, leb, ltb,
  nat_eq, none, not, refl, some, suc, true, zero, ℕ, ◌&&◌, ◌+◌, ◌==◌, ◌∙◌, ◌∷◌, ◌≡◌, ◌≤◌,
}
use tarsk.Supervisor.{BrokerApi, Outcome, Shared, batch, record_outcome}
use tarsk.Base.Dict.{Dict, lookup, lookup-insert}
use tarsk.Base.Float.{Float}
use tarsk.Supervisor.Finishing.{
  answer_missing, give_up, insert_sorted, no_worker, report, sort_by_key,
}

-- The numbers of the tasks rise.
abbrev pub IsSorted {ℓ} : {A : Type ℓ} → Dict ℕ A → Type 0
IsSorted [] = Unit
IsSorted ((k, v) ∷ m) = All (λ entry. k ≤ entry.0) m × IsSorted m

module _ {ℓ} {A : Type ℓ} where
  lookup-insert_sorted :
      (k j : ℕ) (v : A) (m : Dict ℕ A)
      → lookup j (insert_sorted k v m) ≡ (if k == j then some v else lookup j m)
  unfolding lookup insert_sorted
  lookup-insert_sorted k j v [] = refl
  lookup-insert_sorted k j v ((i, w) ∷ m) =
      ground (arith, lookup-insert_sorted k j v m, nat_eq.beq_iff k j, nat_eq.beq_iff i j)

  lookup-sort_by_key : (j : ℕ) (m : Dict ℕ A) → lookup j (sort_by_key m) ≡ lookup j m
  unfolding lookup sort_by_key
  lookup-sort_by_key j [] = refl
  lookup-sort_by_key j ((k, v) ∷ m) =
      ground (arith, lookup-insert_sorted k j v (sort_by_key m), lookup-sort_by_key j m)

  All-insert_sorted :
      (low k : ℕ) (v : A) (m : Dict ℕ A)
      → low ≤ k
      → All (λ entry. low ≤ entry.0) m
      → All (λ (entry : ℕ × A). low ≤ entry.0) (insert_sorted k v m)
  unfolding insert_sorted
  All-insert_sorted low k v [] h all = ground (arith, h)
  All-insert_sorted low k v ((j, w) ∷ m) h all =
      ground (arith, h, all, All-insert_sorted low k v m h all.1)

  All-lower :
      (low k : ℕ) (m : Dict ℕ A)
      → low ≤ k
      → All (λ entry. k ≤ entry.0) m
      → All (λ (entry : ℕ × A). low ≤ entry.0) m
  All-lower low k [] h all = tt
  All-lower low k ((j, w) ∷ m) h all = ground (arith, h, all, All-lower low k m h all.1)

  insert_sorted-IsSorted :
      (k : ℕ) (v : A) (m : Dict ℕ A) → IsSorted m → IsSorted (insert_sorted k v m)
  unfolding insert_sorted
  insert_sorted-IsSorted k v [] sorted = (tt, tt)
  insert_sorted-IsSorted k v ((j, w) ∷ m) (above, sorted) = elim (Bool-cases (leb k j)) [
    | inl here ↦ ground (arith, here, above, sorted, All-lower k j m (ground (arith, here)) above)
    | inr later ↦ ground (
      arith,
      later,
      above,
      insert_sorted-IsSorted k v m sorted,
      All-insert_sorted j k v m (ground (arith, later)) above,
    )
  ]

  sort_by_key-IsSorted : (m : Dict ℕ A) → IsSorted (sort_by_key m)
  unfolding sort_by_key
  sort_by_key-IsSorted [] = tt
  sort_by_key-IsSorted ((k, v) ∷ m) =
      insert_sorted-IsSorted k v (sort_by_key m) (sort_by_key-IsSorted m)

module _ {fl : Float} {api : BrokerApi fl} where
  record_outcome-results :
      (k j : ℕ) (outcome : Outcome) (s : Shared api)
      → batch s ≡ true
      → lookup k s.results ≡ none
      → (lookup j (record_outcome k outcome s).results
          ≡ (if k == j then some outcome else lookup j s.results))
        × ((record_outcome k outcome s).total ≡ s.total)
  unfolding record_outcome
  record_outcome-results k j outcome s b absent =
      ground (arith, b, absent, lookup-insert k j outcome s.results)

  lookup-answer_missing :
      (left k j : ℕ) (s : Shared api)
      → batch s ≡ true
      → lookup j (answer_missing left k s).results ≡ elim (lookup j s.results) [
        | some outcome ↦ some outcome
        | none ↦ if leb k j && ltb j (k + left) then some no_worker else none
      ]
  unfolding answer_missing
  lookup-answer_missing zero k j s b = elim (Option-cases (lookup j s.results)) [
    | inl none_here ↦ ground (arith, none_here)
    | inr (outcome, e) ↦ ground (arith, e)
  ]
  lookup-answer_missing (suc left) k j s b =
      let again = record_outcome k no_worker s in
      elim (Option-cases (lookup k s.results)) [
        | inl absent ↦ elim (Option-cases (lookup j s.results)) [
          | inl none_here ↦ ground (
            arith,
            absent,
            none_here,
            record_outcome-results k j no_worker s b absent,
            lookup-answer_missing left (suc k) j again b,
            nat_eq.beq_iff k j,
          )
          | inr (outcome, e) ↦ ground (
            arith,
            absent,
            e,
            record_outcome-results k j no_worker s b absent,
            lookup-answer_missing left (suc k) j again b,
            nat_eq.beq_iff k j,
          )
        ]
        | inr (mine, here) ↦ elim (Option-cases (lookup j s.results)) [
          | inl none_here ↦ elim (beq_cases k j) [
            | inl same ↦ absurd (ground (arith, here, none_here, ap (λ i. lookup i s.results) same))
            | inr apart ↦
                ground (arith, here, none_here, apart, lookup-answer_missing left (suc k) j s b)
          ]
          | inr (outcome, e) ↦ ground (arith, here, e, lookup-answer_missing left (suc k) j s b)
        ]
      ]

  lookup-give_up :
      (j : ℕ) (s : Shared api)
      → batch s ≡ true
      → lookup j (give_up s).results ≡ elim (lookup j s.results) [
        | some outcome ↦ some outcome
        | none ↦ if not s.done && ltb j s.total then some no_worker else none
      ]
  unfolding give_up
  lookup-give_up j s b = elim (Option-cases (lookup j s.results)) [
    | inl none_here ↦ ground (arith, b, none_here, lookup-answer_missing s.total 0 j s b)
    | inr (outcome, e) ↦ ground (arith, b, e, lookup-answer_missing s.total 0 j s b)
  ]

  -- In batch mode a report has of each task the outcome that was recorded. Of a task with none, it
  -- says that no worker was left, where the slots gave up before the run was done and the number of
  -- the task is below the total; else it says nothing. The outcomes are in the order of the numbers
  -- of the tasks.
  pub report_answers :
      (task_id : ℕ) (s : Shared api)
      → batch s ≡ true
      → (lookup task_id (report (give_up s)).outcomes ≡ elim (lookup task_id s.results) [
        | some outcome ↦ some outcome
        | none ↦ if not s.done && ltb task_id s.total then some no_worker else none
      ])
        × IsSorted (report (give_up s)).outcomes
  unfolding report
  report_answers task_id s b = (
    lookup-sort_by_key task_id (give_up s).results ∙ lookup-give_up task_id s b,
    sort_by_key-IsSorted (give_up s).results,
  )
