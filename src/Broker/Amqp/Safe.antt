-- ===== src/Broker/Amqp/Safe.antt =====
-- AmqpBroker (broker.rs) publishes only to queues that exist: a message for a queue that does not
-- is dropped by the server without a sound.
mod Asks
mod Calls
pub mod Operations
mod Listing
pub mod Reached
use tarsk.Base.{
  List, Option, Res, Text, arith, contains, err, false, if◌then◌else◌, none, ok, refl, some, subst,
  text_eq, true, ◌∷◌, ◌≡◌,
}
use tarsk.Broker.{stream_key}
use tarsk.Base.Dict.{contains_key}
use tarsk.Broker.Running.{after, when_found, ◌>>=◌}
use tarsk.Broker.Amqp.Client.{AmqpBroker, Run, ask}
use tarsk.Broker.Amqp.Log.{AmqpCall, Log, Oracle, is_safe, logging, reply, was_declared}

module _ {Acker : Type 0} (o : Oracle Acker) where
  -- The queues of `opened` are declared, and so is every queue that the broker takes for declared.
  pub record IsSound (opened : List Text) (b : AmqpBroker (logging o)) : Type 0 where
    pub safe : is_safe b.server ≡ true
    pub known :
        (name : Text) → contains_key name b.declared ≡ true → was_declared name b.server ≡ true
    pub ready :
        (queue : Text)
        → contains opened queue ≡ true
        → was_declared (stream_key queue) b.server ≡ true

  abbrev pub Post {ℓ} :
      {A : Type ℓ} → (A → AmqpBroker (logging o) → Type 0) → Res A × AmqpBroker (logging o) → Type 0
  Post Q (ok a, b) = Q a b
  Post Q (err, b) = Unit

  abbrev pub Always {ℓ} : {A : Type ℓ} → A → AmqpBroker (logging o) → Type 0
  Always a b = Unit

  pub Post-after {ℓ κ} :
      {A : Type ℓ} {B : Type κ} (Q : A → AmqpBroker (logging o) → Type 0)
      (R : B → AmqpBroker (logging o) → Type 0) (f : A → Run (logging o) B)
      (r : Res A × AmqpBroker (logging o))
      → Post Q r
      → ((a : A) (b : AmqpBroker (logging o)) → Q a b → Post R (f a b))
      → Post R (after r f)
  Post-after Q R f (ok a, b) q each = each a b q
  Post-after Q R f (err, b) q each = tt

  pub succeeded {ℓ} :
      {A : Type ℓ} (Q : A → AmqpBroker (logging o) → Type 0) (a : A)
      (r : Res A × AmqpBroker (logging o))
      → r.0 ≡ ok a
      → Post Q r
      → Q a r.1
  succeeded Q a (ok x, b) h q = subst (λ x. Q x b) (ground (arith, h)) q
  succeeded Q a (err, b) h q = absurd (ground (arith, h))

  pub Post-self :
      {A : Type 0} (Q : A → AmqpBroker (logging o) → Type 0) (r : Res A × AmqpBroker (logging o))
      → Post Q r
      → Post (λ a b. (r.0 ≡ ok a) × Q a b) r
  Post-self Q (ok a, b) q = (refl, q)
  Post-self Q (err, b) q = tt

  pub Post-when_found {ℓ κ} :
      {A : Type ℓ} {B : Type κ} (R : B → AmqpBroker (logging o) → Type 0) (found : Option A)
      (without : Run (logging o) B) (f : A → Run (logging o) B) (b : AmqpBroker (logging o))
      → Post R (without b)
      → ((a : A) → Post R (f a b))
      → Post R (when_found found without f b)
  Post-when_found R none without f b h each = h
  Post-when_found R (some a) without f b h each = each a

  pub Post-asked {ℓ} :
      {A : Type ℓ} (event : AmqpCall Acker) (f : Log Acker → A)
      (Q : A → AmqpBroker (logging o) → Type 0) (b : AmqpBroker (logging o))
      → Q (f b.server) (record b { server = (event, true) ∷ b.server })
      → Post Q (ask {client = logging o} (reply o event f) b)
  Post-asked {A = A} event f Q b q =
      elim (o.fails b.server)
        as (λ fails.
          let made : Res A × Log Acker =
            if fails
            then (err, (event, false) ∷ b.server)
            else (ok (f b.server), (event, true) ∷ b.server) in
          Post Q (made.0, record b { server = made.1 })) [ true ↦ tt | false ↦ q ]

  -- From a sound state with `P`, the operation ends in a sound state, and with `Q` where it succeeds.
  abbrev pub Ensures {ℓ} :
      {A : Type ℓ}
      → List Text
      → (AmqpBroker (logging o) → Type 0)
      → Run (logging o) A
      → (A → AmqpBroker (logging o) → Type 0)
      → Type 0
  Ensures opened P m Q =
      (b : AmqpBroker (logging o)) → IsSound opened b → P b → IsSound opened (m b).1 × Post Q (m b)

  Ensures-after {ℓ κ} :
      {A : Type ℓ} {B : Type κ} {opened : List Text} (Q : A → AmqpBroker (logging o) → Type 0)
      (R : B → AmqpBroker (logging o) → Type 0) (f : A → Run (logging o) B)
      (r : Res A × AmqpBroker (logging o))
      → IsSound opened r.1
      → Post Q r
      → ((a : A) → Ensures opened (Q a) (f a) R)
      → IsSound opened (after r f).1 × Post R (after r f)
  Ensures-after Q R f (ok a, b) sound q rest = rest a b sound q
  Ensures-after Q R f (err, b) sound q rest = (sound, tt)

  pub Ensures->>= {ℓ κ} :
      {A : Type ℓ} {B : Type κ} {opened : List Text} {P : AmqpBroker (logging o) → Type 0}
      (Q : A → AmqpBroker (logging o) → Type 0) (R : B → AmqpBroker (logging o) → Type 0)
      (m : Run (logging o) A) (f : A → Run (logging o) B)
      → Ensures opened P m Q
      → ((a : A) → Ensures opened (Q a) (f a) R)
      → Ensures opened P (m >>= f) R
  Ensures->>= Q R m f first rest b sound p =
      let (s, q) = first b sound p in Ensures-after Q R f (m b) s q rest

  pub Ensures-when_found {ℓ κ} :
      {A : Type ℓ} {B : Type κ} {opened : List Text} (P : AmqpBroker (logging o) → Type 0)
      (R : B → AmqpBroker (logging o) → Type 0) (found : Option A) (without : Run (logging o) B)
      (f : A → Run (logging o) B)
      → Ensures opened P without R
      → ((a : A) → Ensures opened P (f a) R)
      → Ensures opened P (when_found found without f) R
  Ensures-when_found P R none without f h each = h
  Ensures-when_found P R (some a) without f h each = each a
