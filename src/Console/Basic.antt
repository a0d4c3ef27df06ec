-- ===== src/Console/Basic.antt =====
-- The encoding of credentials, against a decoder that follows RFC 4648.
use tarsk.Base.{
  All, Text, [], arith, false, if◌then◌else◌, leb, nat_eq, refl, ℕ, ◌%◌, ◌*◌, ◌+◌, ◌-◌, ◌/◌, ◌<◌,
  ◌==◌, ◌∷◌, ◌≡◌,
}
use tarsk.Console.{base64, sextet}

abbrev pub sextet_value : ℕ → ℕ
sextet_value x =
    if leb b'a' x
    then x - b'a' + 26
    else if leb b'A' x
    then x - b'A' + 0
    else if leb b'0' x
    then x - b'0' + 52
    else if x == b'+'
    then 62
    else 63

abbrev pub decode_two : ℕ → ℕ → ℕ
decode_two a b = sextet_value a * 4 + sextet_value b / 16

abbrev pub decode_three : ℕ → ℕ → ℕ
decode_three b d = sextet_value b % 16 * 16 + sextet_value d / 4

abbrev pub decode_four : ℕ → ℕ → ℕ
decode_four d e = sextet_value d % 4 * 64 + sextet_value e

unfoldable pub unbase64 : Text → Text
unbase64 (a ∷ b ∷ d ∷ e ∷ rest) =
    let more = unbase64 rest in
    if d == b'='
    then decode_two a b ∷ []
    else if e == b'='
    then decode_two a b ∷ decode_three b d ∷ []
    else decode_two a b ∷ decode_three b d ∷ decode_four d e ∷ more
unbase64 _ = []

sextet_lem : (n : ℕ) → n < 64 → (sextet_value (sextet n) ≡ n) × ((sextet n == b'=') ≡ false)
sextet_lem n h = (ground (arith, h), ground (arith, h))

-- What `base64` encodes, the decoder reads back, for any bytes.
unbase64-base64 : (xs : Text) → All (λ x. x < 256) xs → unbase64 (base64 xs) ≡ xs
unfolding unbase64 base64
unbase64-base64 [] small = refl
unbase64-base64 (a ∷ []) (h, small) =
    let n : ℕ = a * 65536 in
    ground (
      arith,
      h,
      sextet_lem (n / 262144) (omega (arith, h)),
      sextet_lem (n / 4096 % 64) (omega arith),
    )
unbase64-base64 (a ∷ b ∷ []) (h, (k, small)) =
    let n : ℕ = a * 65536 + b * 256 in
    ground (
      arith,
      h,
      k,
      sextet_lem (n / 262144) (omega (arith, h, k)),
      sextet_lem (n / 4096 % 64) (omega arith),
      sextet_lem (n / 64 % 64) (omega arith),
    )
unbase64-base64 (a ∷ b ∷ d ∷ rest) (h, (k, (l, small))) =
    let n : ℕ = a * 65536 + b * 256 + d in
    ground (
      arith,
      h,
      k,
      l,
      sextet_lem (n / 262144) (omega (arith, h, k, l)),
      sextet_lem (n / 4096 % 64) (omega arith),
      sextet_lem (n / 64 % 64) (omega arith),
      sextet_lem (n % 64) (omega arith),
      unbase64-base64 rest small,
    )
