-- ===== src/Broker/Amqp/Growing.antt =====
-- The log of the calls of AmqpBroker (broker.rs) only grows.
use mathlib.Core.List.{append_assoc}
use tarsk.Base.{
  Bool-cases, Option, Res, Text, [], ap, arith, err, inl, inr, leb, nat_eq, none, not, ok, refl,
  some, suc, sym, zero, ℕ, ◌++◌, ◌==◌, ◌∙◌, ◌∷◌, ◌≡◌,
}
use tarsk.Broker.Running.{after, when_found, ◌>>=◌}
use tarsk.Broker.Amqp.Client.{AmqpBroker, Run, ask, declare_plain}
use tarsk.Broker.Amqp.Dead.{enforce_cap, trim}
use tarsk.Broker.Amqp.Log.{AmqpCall, Log, Oracle, acked, declared_queue, fetched, logging, reply}

module _ {Acker : Type 0} (o : Oracle Acker) where
  -- The log only grows.
  abbrev pub Grows {ℓ} : {A : Type ℓ} → Run (logging o) A → Type 0
  Grows m =
      (b : AmqpBroker (logging o)) → (later : Log Acker) × ((m b).1.server ≡ later ++ b.server)

  after-Grows {ℓ κ} :
      {A : Type ℓ} {B : Type κ} (f : A → Run (logging o) B) (r : Res A × AmqpBroker (logging o))
      → ((a : A) → Grows (f a))
      → (later : Log Acker) × ((after r f).1.server ≡ later ++ r.1.server)
  after-Grows f (ok a, b) each = each a b
  after-Grows f (err, b) each = ([], refl)

  >>=-Grows {ℓ κ} :
      {A : Type ℓ} {B : Type κ} (m : Run (logging o) A) (f : A → Run (logging o) B)
      → Grows m
      → ((a : A) → Grows (f a))
      → Grows (m >>= f)
  >>=-Grows m f first each b =
      let (early, starts) = first b in
      let (later, ends) = after-Grows f (m b) each in
      (
        later ++ early,
        ends ∙ ap (λ log. later ++ log) starts ∙ sym (append_assoc later early b.server),
      )

  when_found-Grows {ℓ κ} :
      {A : Type ℓ} {B : Type κ} (found : Option A) (without : Run (logging o) B)
      (f : A → Run (logging o) B)
      → Grows without
      → ((a : A) → Grows (f a))
      → Grows (when_found found without f)
  when_found-Grows none without f h each = h
  when_found-Grows (some a) without f h each = each a

  ask-Grows {ℓ} :
      {A : Type ℓ} (event : AmqpCall Acker) (f : Log Acker → A)
      → Grows (ask {client = logging o} (reply o event f))
  ask-Grows event f b = ((event, not (o.fails b.server)) ∷ [], ground arith)

  trim-Grows : (dead : Text) (keep count : ℕ) → Grows (trim {client = logging o} dead keep count)
  unfolding trim
  trim-Grows dead keep zero = λ b. ([], refl)
  trim-Grows dead keep (suc count) = λ b. elim (Bool-cases (leb (suc count) keep)) [
    | inl few ↦ rw few ([], refl)
    | inr many ↦ rw many (
        >>=-Grows (ask {client = logging o} ((logging o).get dead)) _
          (ask-Grows (fetched dead) o.found)
          (λ oldest.
            when_found-Grows oldest _ _ (λ b. ([], refl))
              (λ m.
                >>=-Grows (ask {client = logging o} ((logging o).ack m.acker)) _
                  (ask-Grows (acked m.acker) (λ _. tt)) (λ _. trim-Grows dead keep count)))
          b)
  ]

  pub enforce_cap-Grows :
      (dead : Text) (keep : ℕ) → Grows (enforce_cap {client = logging o} dead keep)
  unfolding declare_plain
  enforce_cap-Grows dead keep b = elim (Bool-cases (keep == 0)) [
    | inl whole ↦ rw whole ([], refl)
    | inr capped ↦ rw capped (
        >>=-Grows (declare_plain {client = logging o} dead) _
          (>>=-Grows (ask {client = logging o} ((logging o).declare dead [])) _
            (ask-Grows (declared_queue dead) o.waiting) (λ n b. ([], refl)))
          (trim-Grows dead keep) b)
  ]
