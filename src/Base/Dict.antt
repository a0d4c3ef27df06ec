-- ===== src/Base/Dict.antt =====
-- `HashMap` and `HashSet` of the source: an association list, with the laws in `if` form. The
-- order of the entries stands for the unspecified order of iteration.
use Prim.Native.Nat.{◌+◌, ◌≤◌}
use mathlib.Core.Path.{◌≡◌, refl, sym}
use mathlib.Core.Logic.{inl, inr}
use mathlib.Core.Bool.{Bool, true, false}
use mathlib.Core.Option.{Option, none, some}
use mathlib.Core.List.{List, [], ◌∷◌}
use native.Mathlib.Omega.{arith}
use tarsk.Base.Tests.{if◌then◌else◌, Bool-cases}
use tarsk.Base.Equality.{Eq, ◌==◌, beq_refl}
use tarsk.Base.Lists.{length}

abbrev pub Dict {ℓ κ} : Type ℓ → Type κ → Type (ℓ ⊔ κ)
Dict K V = List (K × V)

abbrev pub is_some {ℓ} : {A : Type ℓ} → Option A → Bool
is_some none = false
is_some (some _) = true

-- `unwrap_or_default` and the like.
abbrev pub or_else {ℓ} : {A : Type ℓ} → A → Option A → A
or_else d none = d
or_else d (some a) = a

module _ {ℓ κ} {K : Type ℓ} {V : Type κ} ⦃e : Eq K⦄ where
  unfoldable pub lookup : K → Dict K V → Option V
  lookup k [] = none
  lookup k ((j, v) ∷ m) = if j == k then some v else lookup k m

  -- Every entry of the key goes.
  unfoldable pub remove : K → Dict K V → Dict K V
  remove k [] = []
  remove k ((j, w) ∷ m) = let rest = remove k m in if j == k then rest else (j, w) ∷ rest

  unfoldable pub insert : K → V → Dict K V → Dict K V
  insert k v m = (k, v) ∷ remove k m

  abbrev pub contains_key : K → Dict K V → Bool
  contains_key k m = is_some (lookup k m)

  pub lookup-remove :
      (k j : K) (m : Dict K V) → lookup j (remove k m) ≡ (if k == j then none else lookup j m)
  unfolding lookup remove
  lookup-remove k j [] = ground arith
  lookup-remove k j ((i, w) ∷ m) =
      ground (arith, e.beq_iff k j, e.beq_iff i k, e.beq_iff i j, lookup-remove k j m)

  pub lookup-insert :
      (k j : K) (v : V) (m : Dict K V)
      → lookup j (insert k v m) ≡ (if k == j then some v else lookup j m)
  unfolding lookup insert
  lookup-insert k j v m = ground (arith, lookup-remove k j m)

  pub lookup-insert_self : (k : K) (v : V) (m : Dict K V) → lookup k (insert k v m) ≡ some v
  lookup-insert_self k v m = ground (arith, lookup-insert k k v m, beq_refl k)

  pub lookup-remove_self : (k : K) (m : Dict K V) → lookup k (remove k m) ≡ none
  lookup-remove_self k m = ground (arith, lookup-remove k k m, beq_refl k)

  pub length-remove-le : (k : K) (m : Dict K V) → length (remove k m) ≤ length m
  unfolding remove
  length-remove-le k [] = omega arith
  length-remove-le k ((j, w) ∷ m) = ground (arith, length-remove-le k m)

  pub length-insert-le : (k : K) (v : V) (m : Dict K V) → length (insert k v m) ≤ length m + 1
  unfolding insert
  length-insert-le k v m = omega (arith, length-remove-le k m)

module _ {ℓ κ} {K : Type ℓ} {V : Type κ} ⦃e : Eq K⦄ where
  pub remove-absent : (k : K) (m : Dict K V) → lookup k m ≡ none → remove k m ≡ m
  unfolding lookup remove
  remove-absent k [] h = refl
  remove-absent k ((j, v) ∷ m) h = elim (Bool-cases (j == k)) [
    | inl same ↦ absurd (ground (arith, h, same))
    | inr differ ↦ ground (arith, h, differ, remove-absent k m (ground (arith, h, differ)))
  ]

  pub length-insert-absent :
      (k : K) (v : V) (m : Dict K V) → lookup k m ≡ none → length (insert k v m) ≡ length m + 1
  unfolding insert
  length-insert-absent k v m h = ground (arith, remove-absent k m h)

  -- No key twice, as in a map.
  abbrev pub Distinct : Dict K V → Type κ
  Distinct [] = Unit
  Distinct ((k, v) ∷ m) = (lookup k m ≡ none) × Distinct m

  pub Distinct-remove : (k : K) (m : Dict K V) → Distinct m → Distinct (remove k m)
  unfolding remove
  Distinct-remove k [] d = d
  Distinct-remove k ((j, v) ∷ m) (apart, d) =
      ground (arith, apart, Distinct-remove k m d, lookup-remove k j m)

  pub Distinct-insert : (k : K) (v : V) (m : Dict K V) → Distinct m → Distinct (insert k v m)
  unfolding insert
  Distinct-insert k v m d = (lookup-remove_self k m, Distinct-remove k m d)

  pub length-remove-found :
      (k : K) (v : V) (m : Dict K V)
      → Distinct m
      → lookup k m ≡ some v
      → length (remove k m) + 1 ≡ length m
  unfolding lookup remove
  length-remove-found k v [] d h = absurd (ground (arith, h))
  length-remove-found k v ((j, w) ∷ m) (apart, d) h = elim (Bool-cases (j == k)) [
    | inl same ↦ ground (arith, same, remove-absent k m (rw (sym ((e.beq_iff j k).0 same)) apart))
    | inr differ ↦ ground (arith, differ, length-remove-found k v m d (ground (arith, h, differ)))
  ]

-- `HashSet::insert`: the set with the key, and whether the key was new.
abbrev pub set_insert {ℓ} :
    {K : Type ℓ} ⦃e : Eq K⦄ → K → Dict K (Unit {0}) → Dict K (Unit {0}) × Bool
set_insert k s = if contains_key k s then (s, false) else (insert k tt s, true)
