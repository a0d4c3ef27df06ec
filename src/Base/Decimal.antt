-- ===== src/Base/Decimal.antt =====
-- Decimal text: `to_string` of an unsigned integer, and `str::parse` of one. `limit` is the first
-- number that the type cannot hold.
use Prim.Native.Nat.{ℕ, zero, suc, ◌+◌, ◌-◌, ◌*◌, ◌/◌, ◌%◌, ◌<◌, ◌^◌}
use mathlib.Core.Path.{◌≡◌}
use mathlib.Core.Bool.{◌&&◌}
use mathlib.Core.List.{[], ◌∷◌}
use mathlib.Core.Option.{Option, none, some}
use native.Mathlib.Omega.{arith}
use tarsk.Base.Tests.{ltb, leb, nat_beq, if◌then◌else◌, Bool-cases}
use mathlib.Core.Logic.{inl, inr}
use tarsk.Base.Strings.{Text}

-- The digits of `n` before `acc`. The fuel is above `n`, so it never runs out.
unfoldable pub digits_onto : ℕ → ℕ → Text → Text
digits_onto zero n acc = acc
digits_onto (suc fuel) n acc =
    let more = digits_onto fuel (n / 10) ((b'0' + n % 10) ∷ acc) in
    if ltb n 10 then (b'0' + n) ∷ acc else more

unfoldable pub decimal : ℕ → Text
unfolding digits_onto
decimal n = digits_onto (suc n) n []

-- One digit after another; no digit, or a value of the limit and more, is an error.
unfoldable pub digits_value : (limit : ℕ) → Text → ℕ → Option ℕ
digits_value limit [] acc = some acc
digits_value limit (c ∷ cs) acc =
    let next = acc * 10 + (c - b'0') in
    let rest = digits_value limit cs next in
    if leb b'0' c && leb c b'9' && ltb next limit then rest else none

-- A sign `+` may stand before the digits.
unfoldable pub parse_below : (limit : ℕ) → Text → Option ℕ
unfolding digits_value
parse_below limit [] = none
parse_below limit (c ∷ []) = digits_value limit (c ∷ []) 0
parse_below limit (c ∷ d ∷ cs) =
    if nat_beq c b'+' then digits_value limit (d ∷ cs) 0 else digits_value limit (c ∷ d ∷ cs) 0

unfoldable pub parse_u32 : Text → Option ℕ
unfolding parse_below
parse_u32 = parse_below (2 ^ 32)

unfoldable pub parse_u64 : Text → Option ℕ
unfolding parse_below
parse_u64 = parse_below (2 ^ 64)

next_digit : (n : ℕ) → n / 10 * 10 + (b'0' + n % 10 - b'0') ≡ n
next_digit n = omega arith

-- What `decimal` prints, `digits_value` reads back, whatever follows.
digits_value-digits_onto :
    (limit fuel n : ℕ) (acc : Text)
    → n < fuel
    → n < limit
    → digits_value limit (digits_onto fuel n acc) 0 ≡ digits_value limit acc n
unfolding digits_value digits_onto
digits_value-digits_onto limit zero n acc h small = absurd (omega arith)
digits_value-digits_onto limit (suc fuel) n acc h small = elim (Bool-cases (ltb n 10)) [
  | inl last ↦ rw last (ground arith)
  | inr more ↦ rw more (
      rw
        (digits_value-digits_onto limit fuel (n / 10) ((b'0' + n % 10) ∷ acc) (ground arith)
          (omega arith))
        (rw (next_digit n) (ground arith)))
]

pub digits_value-decimal : (limit n : ℕ) → n < limit → digits_value limit (decimal n) 0 ≡ some n
unfolding decimal digits_value
digits_value-decimal limit n h = digits_value-digits_onto limit (suc n) n [] (omega arith) h
