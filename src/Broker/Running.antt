-- ===== src/Broker/Running.antt =====
-- An operation of a broker in this model: it changes a state, and may fail on the way. The first
-- error ends it, as `?` does, and the changes made before it stay.
use tarsk.Base.{Option, Res, err, none, ok, some}

abbrev pub Operation {ℓ} : Type 0 → Type ℓ → Type ℓ
Operation S A = S → Res A × S

module _ {S : Type 0} where
  abbrev pub done {ℓ} : {A : Type ℓ} → A → Operation S A
  done a s = (ok a, s)

  abbrev pub fail {ℓ} : {A : Type ℓ} → Operation S A
  fail s = (err, s)

  abbrev pub after {ℓ κ} : {A : Type ℓ} {B : Type κ} → Res A × S → (A → Operation S B) → Res B × S
  after (ok a, s) f = f a s
  after (err, s) f = (err, s)

  infixl 5 ◌>>=◌ ◌>>◌
  abbrev pub ◌>>=◌ {ℓ κ} :
      {A : Type ℓ} {B : Type κ} → Operation S A → (A → Operation S B) → Operation S B
  (m >>= f) s = after (m s) f

  abbrev pub ◌>>◌ {ℓ κ} : {A : Type ℓ} {B : Type κ} → Operation S A → Operation S B → Operation S B
  m >> n = m >>= λ _. n

  -- What follows on a value that may not be there.
  abbrev pub when_found {ℓ κ} :
      {A : Type ℓ} {B : Type κ} → Option A → Operation S B → (A → Operation S B) → Operation S B
  when_found none without f = without
  when_found (some a) without f = f a
