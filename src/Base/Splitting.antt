-- ===== src/Base/Splitting.antt =====
-- The methods of `str` that take a text apart: `split`, `split_once` and `split_whitespace`.
use Prim.Native.Nat.{ℕ}
use mathlib.Core.Path.{refl, ◌≡◌}
use mathlib.Core.Bool.{false, not}
use mathlib.Core.Option.{Option, none, some}
use mathlib.Core.List.{List, [], ◌∷◌, ◌++◌}
use native.Mathlib.Omega.{arith}
use tarsk.Base.Tests.{if◌then◌else◌}
use tarsk.Base.Equality.{nat_eq, ◌==◌}
use tarsk.Base.Lists.{All, keep}
use tarsk.Base.Strings.{Text, is_empty, is_space}

-- `str::split` at a byte: the pieces between, one more than there are of the byte.
unfoldable pub split : ℕ → Text → List Text
split b [] = [] ∷ []
split b (x ∷ xs) =
    let rest = split b xs in
    if x == b
    then [] ∷ rest
    else elim rest [ [] ↦ (x ∷ []) ∷ [] | piece ∷ pieces ↦ (x ∷ piece) ∷ pieces ]

unfoldable pub split_once : ℕ → Text → Option (Text × Text)
split_once b [] = none
split_once b (x ∷ xs) =
    let rest = split_once b xs in
    if x == b
    then some ([], xs)
    else elim rest [ none ↦ none | some halves ↦ some (x ∷ halves.0, halves.1) ]

unfoldable pub pieces_of : Text → List Text
pieces_of [] = [] ∷ []
pieces_of (x ∷ xs) =
    let rest = pieces_of xs in
    if is_space x
    then [] ∷ rest
    else elim rest [ [] ↦ (x ∷ []) ∷ [] | piece ∷ pieces ↦ (x ∷ piece) ∷ pieces ]

-- The pieces between runs of white space, without the empty ones.
unfoldable pub split_whitespace : Text → List Text
split_whitespace xs = keep (λ piece. not (is_empty piece)) (pieces_of xs)

-- The byte does not stand in the text.
abbrev pub IsFree : ℕ → Text → Type 0
IsFree b = All (λ x. (x == b) ≡ false)

pub split-append : (b : ℕ) (xs ys : Text) → IsFree b xs → split b (xs ++ b ∷ ys) ≡ xs ∷ split b ys
unfolding split
split-append b [] ys free = ground (arith, nat_eq.beq_iff b b)
split-append b (x ∷ xs) ys free = ground (arith, free, split-append b xs ys free.1)

pub split_once-append :
    (b : ℕ) (xs ys : Text) → IsFree b xs → split_once b (xs ++ b ∷ ys) ≡ some (xs, ys)
unfolding split_once
split_once-append b [] ys free = ground (arith, nat_eq.beq_iff b b)
split_once-append b (x ∷ xs) ys free = ground (arith, free, split_once-append b xs ys free.1)

pub split-free : (b : ℕ) (xs : Text) → IsFree b xs → split b xs ≡ xs ∷ []
unfolding split
split-free b [] free = refl
split-free b (x ∷ xs) free = ground (arith, free, split-free b xs free.1)
