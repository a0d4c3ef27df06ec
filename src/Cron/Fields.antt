-- ===== src/Cron/Fields.antt =====
-- What the range of a field sets.
use Prim.Native.Nat.{differ}
use tarsk.Base.{
  Bool-cases, List, arith, contains, inl, inr, leb, ltb, nat_eq, some, suc, true, zero, ℕ, ◌*◌, ◌+◌,
  ◌<◌, ◌==◌, ◌^◌, ◌↔◌, ◌∷◌, ◌≡◌, ◌≤◌, ◌⊎◌,
}
use tarsk.Broker.{u32}
use tarsk.Cron.{set_bits, turns}

-- A value that the range `value-hi/step_size` names.
abbrev pub Named : (value hi step_size v : ℕ) → Type 0
Named value hi step_size v = (k : ℕ) × (v ≡ value + k * step_size) × (v ≤ hi)

Named-later :
    (value hi step_size v : ℕ)
    → Named (value + step_size) hi step_size v
    → Named value hi step_size v
Named-later value hi step_size v (k, e, h) = (suc k, omega (arith, e), h)

Named-cases :
    (value hi step_size v : ℕ)
    → Named value hi step_size v
    → (v ≡ value) ⊎ Named (value + step_size) hi step_size v
Named-cases value hi step_size v (zero, e, h) = inl (omega (arith, e))
Named-cases value hi step_size v (suc k, e, h) = inr (k, omega (arith, e), h)

-- The loop over a range ends, and sets the values that the range names, whole steps from its start
-- up to its end, besides the bits set before; where the end and one more step fit in 32 bits.
pub set_bits_lem :
    (fuel value hi step_size : ℕ) (bits : List ℕ)
    → 0 < step_size
    → hi + step_size < 2 ^ 32
    → 0 < fuel
    → hi + 1 < value + fuel
    → (after : List ℕ) × (set_bits fuel value hi step_size bits ≡ some after)
      × ((v : ℕ)
          → (contains after v ≡ true) ↔ ((contains bits v ≡ true) ⊎ Named value hi step_size v))
unfolding set_bits contains
set_bits_lem zero value hi step_size bits positive small some_fuel enough = absurd (omega arith)
set_bits_lem (suc fuel) value hi step_size bits positive small some_fuel enough =
    elim (Bool-cases (leb value hi)) [
      | inl inside ↦
          let (after, e, sets) =
            set_bits_lem fuel (value + step_size) hi step_size (value ∷ bits) positive small
              (ground (arith, inside)) (omega (arith, positive, enough)) in
          (
            after,
            ground (arith, inside, small, e),
            λ v. (
              λ h. elim ((sets v).0 h) [
                | inl before ↦ elim (Bool-cases (value == v)) [
                  | inl same ↦ inr (0, ground (arith, same), ground (arith, same, inside))
                  | inr differ ↦ inl (ground (arith, before, differ))
                ]
                | inr beyond ↦ inr (Named-later value hi step_size v beyond)
              ],
              λ h. (sets v).1 (elim h [
                | inl before ↦ inl (ground (arith, before))
                | inr here ↦ elim (Named-cases value hi step_size v here) [
                  | inl same ↦ inl (ground (arith, same))
                  | inr beyond ↦ inr beyond
                ]
              ]),
            ),
          )
      | inr over ↦ (
        bits,
        ground (arith, over),
        λ v. (
          λ h. inl h,
          λ h. elim h [ inl before ↦ before | inr (k, e, h) ↦ absurd (ground (arith, over, e, h)) ],
        ),
      )
    ]

-- A step too large for that wraps below the start, and the loop still ends.
set_bits_wraps :
    (fuel value hi step_size : ℕ) (bits : List ℕ)
    → hi < 64
    → step_size < 2 ^ 32
    → 2 ^ 32 ≤ hi + step_size
    → value + 1 < fuel
    → (after : List ℕ) × (set_bits fuel value hi step_size bits ≡ some after)
unfolding set_bits
set_bits_wraps zero value hi step_size bits few step_fits large enough = absurd (omega arith)
set_bits_wraps (suc zero) value hi step_size bits few step_fits large enough = absurd (omega arith)
set_bits_wraps (suc (suc fuel)) value hi step_size bits few step_fits large enough =
    elim (Bool-cases (leb value hi)) [
      | inr over ↦ (bits, ground (arith, over))
      | inl inside ↦ elim (Bool-cases (ltb (value + step_size) (2 ^ 32))) [
        | inl fits ↦ (value ∷ bits, ground (arith, inside, fits))
        | inr wraps ↦
            let (after, e) =
              set_bits_wraps (suc fuel) (u32 (value + step_size)) hi step_size (value ∷ bits) few
                step_fits large (ground (arith, inside, wraps)) in
            (after, ground (arith, inside, e))
      ]
    ]

-- The loop of every field ends, for every step that is read.
set_bits_ends :
    (lo hi step_size : ℕ) (bits : List ℕ)
    → lo ≤ hi
    → hi < 60
    → 0 < step_size
    → step_size < 2 ^ 32
    → (after : List ℕ) × (set_bits turns lo hi step_size bits ≡ some after)
set_bits_ends lo hi step_size bits ordered few positive step_fits =
    elim (Bool-cases (ltb (hi + step_size) (2 ^ 32))) [
      | inl small ↦
          let (after, e, sets) =
            set_bits_lem turns lo hi step_size bits positive (ground (arith, small)) (omega arith)
              (omega arith) in
          (after, e)
      | inr large ↦
          set_bits_wraps turns lo hi step_size bits (omega arith) step_fits (ground (arith, large))
            (omega arith)
    ]
