-- ===== src/Broker/Amqp/Priority.antt =====
-- AmqpBroker (broker.rs) claims in the order of its queues.
use tarsk.Base.{
  Bool-cases, List, Option-cases, Text, [], ap, arith, false, inl, inr, none, ok, refl, some, subst,
  sym, true, ◌++◌, ◌∙◌, ◌∷◌, ◌≡◌,
}
use tarsk.Broker.{Delivery, stream_key}
use tarsk.Broker.Amqp.Client.{AmqpBroker, Message}
use tarsk.Broker.Amqp.Driver.{claim_pass, received_message}
use tarsk.Broker.Amqp.Log.{Log, Oracle, fetched, logging}

-- The passes over the queues in front, that found nothing.
unfoldable pub asked_of : {Acker : Type 0} → List Text → Log Acker → Log Acker
asked_of [] log = log
asked_of (queue ∷ queues) log = asked_of queues ((fetched (stream_key queue), true) ∷ log)

-- The oracle finds nothing in any of the queues, asked in this order.
abbrev pub NothingIn : {Acker : Type 0} → Oracle Acker → List Text → Log Acker → Type 0
NothingIn o [] log = Unit
NothingIn o (queue ∷ queues) log =
    (o.found log ≡ none) × NothingIn o queues ((fetched (stream_key queue), true) ∷ log)

module _ {Acker : Type 0} (o : Oracle Acker) where
  claim_pass-skip :
      (lossy : Text → Text) (queue : Text) (queues : List Text) (b : AmqpBroker (logging o))
      → o.fails b.server ≡ false
      → o.found b.server ≡ none
      → claim_pass {client = logging o} lossy (queue ∷ queues) b
        ≡ claim_pass {client = logging o} lossy queues
            (record b { server = (fetched (stream_key queue), true) ∷ b.server })
  unfolding claim_pass
  claim_pass-skip lossy queue queues b fine nothing = rw (fine, nothing) refl

  -- The delivery is what the server found in one of the queues, after asking all before it in vain.
  abbrev pub IsFirst :
      (lossy : Text → Text) (queues : List Text) (d : Delivery Acker) (log later : Log Acker)
      → Type 0
  IsFirst lossy queues d log later =
      (higher : List Text) × (queue : Text) × (lower : List Text) × (m : Message Acker) × (queues
        ≡ higher ++ queue ∷ lower)
      × NothingIn o higher log
      × (o.found (asked_of higher log) ≡ some m)
      × (d ≡ received_message lossy queue m)
      × (later ≡ (fetched (stream_key queue), true) ∷ asked_of higher log)

  IsFirst-further :
      (lossy : Text → Text) (queue : Text) (queues : List Text) (d : Delivery Acker)
      (log later : Log Acker)
      → o.found log ≡ none
      → IsFirst lossy queues d ((fetched (stream_key queue), true) ∷ log) later
      → IsFirst lossy (queue ∷ queues) d log later
  unfolding asked_of
  IsFirst-further lossy queue queues d log later nothing
        (higher, q, lower, m, parts, before, there, same, end) =
      (
        queue ∷ higher,
        q,
        lower,
        m,
        ap (λ qs. queue ∷ qs) parts,
        (nothing, before),
        there,
        same,
        end,
      )

  -- A pass that hands out a delivery has asked every queue of a higher priority first, and each had
  -- nothing; the delivery is what the server found in the next, with its queue in the receipt, and
  -- no queue is asked after it.
  pub claim_pass-priority :
      (lossy : Text → Text) (queues : List Text) (d : Delivery Acker) (b : AmqpBroker (logging o))
      → (claim_pass {client = logging o} lossy queues b).0 ≡ ok (some d)
      → IsFirst lossy queues d b.server (claim_pass {client = logging o} lossy queues b).1.server
  unfolding claim_pass asked_of
  claim_pass-priority lossy [] d b h = absurd (ground (arith, h))
  claim_pass-priority lossy (queue ∷ queues) d b h = elim (Bool-cases (o.fails b.server)) [
    | inl fails ↦ absurd (ground (arith, h, fails))
    | inr fine ↦ elim (Option-cases (o.found b.server)) [
      | inl nothing ↦
          let skip = claim_pass-skip lossy queue queues b fine nothing in
          subst (λ r. IsFirst lossy (queue ∷ queues) d b.server r.1.server) (sym skip)
            (IsFirst-further lossy queue queues d b.server _ nothing (
              claim_pass-priority lossy queues d
                (record b { server = (fetched (stream_key queue), true) ∷ b.server })
                (sym (ap (λ r. r.0) skip) ∙ h)))
      | inr (m, there) ↦ (
        [],
        queue,
        queues,
        m,
        refl,
        tt,
        there,
        ground (arith, h, fine, there),
        ground (arith, fine, there),
      )
    ]
  ]
