-- ===== src/Console/Forms.antt =====
-- The bodies of forms (`form_value` and `percent_decode`, console.rs). A text is its bytes, and
-- `String::from_utf8_lossy` an argument.
use tarsk.Base.{
  All, All-append, Bool, Bool-cases, List, Option, Option-cases, Text, [], ap, arith, false,
  if◌then◌else◌, inl, inr, leb, ltb, map, nat_eq, none, refl, some, subst, text_eq, true, ℕ, ◌%◌,
  ◌&&◌, ◌*◌, ◌++◌, ◌+◌, ◌-◌, ◌/◌, ◌<◌, ◌==◌, ◌||◌, ◌∙◌, ◌∷◌, ◌≡◌,
}
use tarsk.Base.Dict.{lookup, or_else}
use tarsk.Base.Splitting.{IsFree, split, split-append, split-free, split_once, split_once-append}

-- `u8::from_str_radix` of one digit.
abbrev pub hex_value : ℕ → Option ℕ
hex_value x =
    if leb b'0' x && leb x b'9'
    then some (x - b'0')
    else if leb b'a' x && leb x b'f'
    then some (x - b'a' + 10)
    else if leb b'A' x && leb x b'F'
    then some (x - b'A' + 10)
    else none

abbrev pub hex_byte : (high low : ℕ) → Option ℕ
hex_byte high low = elim (hex_value high) [
  | none ↦ none
  | some h ↦ elim (hex_value low) [ none ↦ none | some l ↦ some (h * 16 + l) ]
]

-- The loop over the bytes. A `+` has become a space before it, so none is read as a sign.
unfoldable pub percent_bytes : Text → Text
percent_bytes [] = []
percent_bytes (c ∷ []) = c ∷ []
percent_bytes (c ∷ a ∷ []) = c ∷ percent_bytes (a ∷ [])
percent_bytes (c ∷ a ∷ b ∷ rest) =
    let plain = c ∷ percent_bytes (a ∷ b ∷ rest) in
    let coded = percent_bytes rest in
    if c == b'%' then (elim (hex_byte a b) [ none ↦ plain | some byte ↦ byte ∷ coded ]) else plain

abbrev pub spaced : ℕ → ℕ
spaced x = if x == b'+' then 32 else x

unfoldable pub percent_decode : (lossy : Text → Text) → Text → Text
unfolding percent_bytes
percent_decode lossy input = lossy (percent_bytes (map spaced input))

-- The first pair of the key, of the pairs that have a `=`.
unfoldable pub find_value : Text → List Text → Option Text
find_value key [] = none
find_value key (pair ∷ pairs) =
    let rest = find_value key pairs in
    elim (split_once b'=' pair) [
      | none ↦ rest
      | some halves ↦ if halves.0 == key then some halves.1 else rest
    ]

unfoldable pub form_value : (lossy : Text → Text) → (body key : Text) → Text
unfolding find_value split split_once percent_decode
form_value lossy body key = elim (find_value key (split b'&' body)) [
  | none ↦ []
  | some v ↦ percent_decode lossy v
]

-- How a browser writes a value into a form: letters, digits and four marks stand for themselves, a
-- space is a `+`, and any other byte is written in hexadecimal digits.
abbrev pub is_unreserved : ℕ → Bool
is_unreserved x =
    (leb b'a' x && leb x b'z')
    || (leb b'A' x && leb x b'Z')
    || (leb b'0' x && leb x b'9')
    || x == b'-'
    || x == b'_'
    || x == b'.'
    || x == b'*'

abbrev pub hex_digit : ℕ → ℕ
hex_digit n = if ltb n 10 then b'0' + n else b'A' + (n - 10)

unfoldable pub form_encode : Text → Text
form_encode [] = []
form_encode (x ∷ xs) =
    let rest = form_encode xs in
    if is_unreserved x
    then x ∷ rest
    else if x == 32
    then b'+' ∷ rest
    else b'%' ∷ hex_digit (x / 16) ∷ hex_digit (x % 16) ∷ rest

-- `xs` are bytes.
abbrev pub IsBytes : Text → Type 0
IsBytes = All (λ x. x < 256)

percent_bytes-plain :
    (c : ℕ) (cs : Text) → (c == b'%') ≡ false → percent_bytes (c ∷ cs) ≡ c ∷ percent_bytes cs
unfolding percent_bytes
percent_bytes-plain c [] h = refl
percent_bytes-plain c (a ∷ []) h = refl
percent_bytes-plain c (a ∷ b ∷ rest) h = ground (arith, h)

hex_value-hex_digit : (n : ℕ) → n < 16 → hex_value (spaced (hex_digit n)) ≡ some n
hex_value-hex_digit n h = ground (arith, h)

is_unreserved-spaced : (x : ℕ) → is_unreserved x ≡ true → spaced x ≡ x
is_unreserved-spaced x h = ground (arith, h)

is_unreserved-percent : (x : ℕ) → is_unreserved x ≡ true → (x == b'%') ≡ false
is_unreserved-percent x h = ground (arith, h)

hex_byte-hex_digit :
    (x : ℕ)
    → x < 256
    → hex_byte (spaced (hex_digit (x / 16))) (spaced (hex_digit (x % 16))) ≡ some x
hex_byte-hex_digit x h = ground (
  arith,
  hex_value-hex_digit (x / 16) (omega (arith, h)),
  hex_value-hex_digit (x % 16) (omega arith),
)

percent_bytes-form_encode :
    (xs : Text) → IsBytes xs → percent_bytes (map spaced (form_encode xs)) ≡ xs
unfolding form_encode percent_bytes
percent_bytes-form_encode [] bytes = refl
percent_bytes-form_encode (x ∷ xs) bytes =
    let again = percent_bytes-form_encode xs bytes.1 in
    let rest = map spaced (form_encode xs) in
    elim (Bool-cases (is_unreserved x)) [
      | inl kept ↦ rw kept (
          ap (λ y. percent_bytes (y ∷ rest)) (is_unreserved-spaced x kept)
          ∙ percent_bytes-plain x rest (is_unreserved-percent x kept)
          ∙ ap (◌∷◌ x) again)
      | inr coded ↦ elim (Bool-cases (x == 32)) [
        | inl space ↦
            rw (coded, space)
              (percent_bytes-plain 32 rest refl
                ∙ ground (arith, again, (nat_eq.beq_iff x 32).0 space))
        | inr other ↦ rw (coded, other) (ground (arith, hex_byte-hex_digit x bytes.0, again))
      ]
    ]

form_encode-IsFree : (xs : Text) → IsBytes xs → IsFree b'&' (form_encode xs)
unfolding form_encode
form_encode-IsFree [] bytes = tt
form_encode-IsFree (x ∷ xs) bytes = ground (arith, bytes, form_encode-IsFree xs bytes.1)

-- The pair of a field, and the body of a form with such fields, as a browser writes it.
abbrev pub pair_text : Text × Text → Text
pair_text (key, v) = key ++ b'=' ∷ form_encode v

unfoldable pub form_body : List (Text × Text) → Text
form_body [] = []
form_body (field ∷ []) = pair_text field
form_body (field ∷ next ∷ fields) = pair_text field ++ b'&' ∷ form_body (next ∷ fields)

-- The key has no `=` and no `&`, and the value is bytes that are valid text, which the lossy
-- conversion leaves as it is.
abbrev pub IsField : (lossy : Text → Text) → Text × Text → Type 0
IsField lossy (key, v) = IsFree b'=' key × IsFree b'&' key × IsBytes v × (lossy v ≡ v)

pair_text-IsFree : (key v : Text) → IsFree b'&' key → IsBytes v → IsFree b'&' (pair_text (key, v))
pair_text-IsFree key v no_and bytes =
    All-append (λ x. (x == b'&') ≡ false) key (b'=' ∷ form_encode v) no_and
      (refl, form_encode-IsFree v bytes)

encoded : Option Text → Option Text
encoded none = none
encoded (some v) = some (form_encode v)

find_value-pair_text :
    (key k v : Text) (pairs : List Text)
    → IsFree b'=' k
    → find_value key (pair_text (k, v) ∷ pairs)
      ≡ (if k == key then some (form_encode v) else find_value key pairs)
unfolding find_value
find_value-pair_text key k v pairs no_equals =
    ground (arith, split_once-append b'=' k (form_encode v) no_equals)

find_value-form_body :
    (lossy : Text → Text) (fields : List (Text × Text)) (key : Text)
    → All (IsField lossy) fields
    → find_value key (split b'&' (form_body fields)) ≡ encoded (lookup key fields)
unfolding find_value form_body split split_once lookup encoded
find_value-form_body lossy [] key valid = refl
find_value-form_body lossy ((k, v) ∷ []) key ((no_equals, no_and, bytes, same), _) = ground (
  arith,
  split-free b'&' (pair_text (k, v)) (pair_text-IsFree k v no_and bytes),
  find_value-pair_text key k v [] no_equals,
)
find_value-form_body lossy ((k, v) ∷ next ∷ fields) key ((no_equals, no_and, bytes, same), valid) =
    ground (
      arith,
      split-append b'&' (pair_text (k, v)) (form_body (next ∷ fields))
          (pair_text-IsFree k v no_and bytes),
      find_value-pair_text key k v (split b'&' (form_body (next ∷ fields))) no_equals,
      find_value-form_body lossy (next ∷ fields) key valid,
    )

lookup-IsField :
    (lossy : Text → Text) (fields : List (Text × Text)) (key v : Text)
    → All (IsField lossy) fields
    → lookup key fields ≡ some v
    → IsBytes v × (lossy v ≡ v)
unfolding lookup
lookup-IsField lossy [] key v valid h = absurd (ground (arith, h))
lookup-IsField lossy ((k, w) ∷ fields) key v ((no_equals, no_and, bytes, same), valid) h =
    elim (Bool-cases (k == key)) [
      | inl here ↦ subst (λ x. IsBytes x × (lossy x ≡ x)) (ground (arith, h, here)) (bytes, same)
      | inr apart ↦ lookup-IsField lossy fields key v valid (ground (arith, h, apart))
    ]

pub form_value-form_body :
    (lossy : Text → Text) (fields : List (Text × Text)) (key : Text)
    → All (IsField lossy) fields
    → form_value lossy (form_body fields) key ≡ or_else [] (lookup key fields)
unfolding form_value encoded percent_decode
form_value-form_body lossy fields key valid = elim (Option-cases (lookup key fields)) [
  | inl nothing ↦
      rw (find_value-form_body lossy fields key valid, nothing, encoded, form_value) refl
  | inr (v, there) ↦
      let (bytes, same) = lookup-IsField lossy fields key v valid there in
      rw (find_value-form_body lossy fields key valid, there, encoded, form_value, percent_decode)
        (ap lossy (percent_bytes-form_encode v bytes) ∙ same)
]
