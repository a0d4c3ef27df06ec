-- ===== src/Console/Compare.antt =====
-- The comparison of credentials.
use Prim.Native.Nat.{bit_or, bit_or-bitwise, bit_xor, bit_xor-bitwise, differ, digits}
use tarsk.Base.{
  Text, [], ap, arith, length, max, refl, suc, sym, true, zero, ℕ, ◌%◌, ◌/◌, ◌↔◌, ◌∙◌, ◌∷◌, ◌≡◌,
  ◌≤◌,
}
use tarsk.Console.{constant_time_eq, differences}

differ-zero : (x y : ℕ) → differ x y ≡ 0 → x ≡ y
differ-zero zero y h = sym h
differ-zero (suc x) zero h = h
differ-zero (suc x) (suc y) h = ap suc (differ-zero x y h)

differ-same : (x : ℕ) → differ x x ≡ 0
differ-same zero = refl
differ-same (suc x) = differ-same x

or_digits-zero : (fuel a b : ℕ) → a ≤ fuel → digits (λ b. b) max fuel a b ≡ 0 → (a ≡ 0) × (b ≡ 0)
or_digits-zero zero zero b h e = (refl, e)
or_digits-zero zero (suc a) b h e = absurd (omega (arith, h))
or_digits-zero (suc fuel) zero b h e = (refl, e)
or_digits-zero (suc fuel) (suc a) b h e =
    let (high, low) =
      or_digits-zero fuel (suc a / 2) (b / 2) (omega (arith, h)) (omega (arith, e)) in
    absurd (omega (arith, e, high))

xor_digits-zero : (fuel a b : ℕ) → a ≤ fuel → digits (λ b. b) differ fuel a b ≡ 0 → a ≡ b
xor_digits-zero zero zero b h e = sym e
xor_digits-zero zero (suc a) b h e = absurd (omega (arith, h))
xor_digits-zero (suc fuel) zero b h e = sym e
xor_digits-zero (suc fuel) (suc a) b h e = omega (
  arith,
  xor_digits-zero fuel (suc a / 2) (b / 2) (omega (arith, h)) (omega (arith, e)),
  differ-zero (suc a % 2) (b % 2) (omega (arith, e)),
)

xor_digits-same : (fuel a : ℕ) → a ≤ fuel → digits (λ b. b) differ fuel a a ≡ 0
xor_digits-same zero zero h = refl
xor_digits-same zero (suc a) h = absurd (omega (arith, h))
xor_digits-same (suc fuel) zero h = refl
xor_digits-same (suc fuel) (suc a) h =
    omega (arith, xor_digits-same fuel (suc a / 2) (omega (arith, h)), differ-same (suc a % 2))

bit_or-zero : (a b : ℕ) → (bit_or a b ≡ 0) ↔ ((a ≡ 0) × (b ≡ 0))
bit_or-zero a b = (
  λ h. or_digits-zero a a b (omega arith) (sym (bit_or-bitwise a b) ∙ h),
  λ (p, q). rw (p, q) (bit_or-bitwise 0 0),
)

bit_xor-zero : (a b : ℕ) → (bit_xor a b ≡ 0) ↔ (a ≡ b)
bit_xor-zero a b = (
  λ h. xor_digits-zero a a b (omega arith) (sym (bit_xor-bitwise a b) ∙ h),
  λ e. rw e (bit_xor-bitwise b b ∙ xor_digits-same b b (omega arith)),
)

differences-zero :
    (a b : Text) (acc : ℕ) → length a ≡ length b → (differences a b acc ≡ 0) ↔ ((acc ≡ 0) × (a ≡ b))
unfolding differences
differences-zero [] [] acc h = (λ e. (e, refl), λ p. p.0)
differences-zero [] (y ∷ b) acc h = absurd (omega (arith, h))
differences-zero (x ∷ a) [] acc h = absurd (omega (arith, h))
differences-zero (x ∷ a) (y ∷ b) acc h = ground (
  arith,
  differences-zero a b (bit_or acc (bit_xor x y)),
  bit_or-zero acc (bit_xor x y),
  bit_xor-zero x y,
  h,
)

-- The comparison that takes the same time for every text of a length accepts a text exactly when
-- it is the expected one.
pub constant_time_eq_lem : (a b : Text) → (constant_time_eq a b ≡ true) ↔ (a ≡ b)
unfolding constant_time_eq
constant_time_eq_lem a b = ground (arith, differences-zero a b 0, λ (e : a ≡ b). ap length e)
