-- ===== src/Broker/Examples.antt =====
-- A test of the headers of a message.
use tarsk.Base.{[], arith, refl, text, ◌∷◌, ◌≡◌}
use tarsk.Broker.{AmqpRecord}
use tarsk.Broker.Amqp.{amqp_record_from, encode}
use tarsk.Broker.Amqp.Headers.{amqp_record_from-encode}

abbrev carried_record : AmqpRecord
carried_record = record {
  id = text "j1";
  name = text "embed";
  payload = text "body";
  timeout_ms = 1000;
  chain = text "steps";
  meta = [];
  expires_ms = 60000;
  attempt = 2;
}

amqp_record_from-encode_example :
    amqp_record_from
      (λ t. t)
      (encode carried_record 5000 ((text "tarsk-error", text "ValueError") ∷ []))
      (text "body")
    ≡ carried_record
amqp_record_from-encode_example =
    amqp_record_from-encode (λ t. t) carried_record 5000
      ((text "tarsk-error", text "ValueError") ∷ [])
      (
        (refl, tt),
        ((refl, tt), ((refl, tt), ((refl, tt), ((refl, tt), ((refl, tt), ((refl, tt), tt)))))),
      )
      refl refl (omega arith) (omega arith) (omega arith)
