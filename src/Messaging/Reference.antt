-- ===== src/Messaging/Reference.antt =====
-- A broker that confirms every message: the law of `Broker` can be met.
use kltn_high_concurrency_co.Prelude.{◌≡◌, Option, some, List, [], ◌∷◌, ◌++◌, arith}
use kltn_high_concurrency_co.Messaging.{
  Exchange, delay_exchange, work_exchange, RoutingKey, Payload, Broker,
}

abbrev keep :
    Exchange
    → RoutingKey
    → Payload
    → List (RoutingKey × Payload)
    → Option (List (RoutingKey × Payload))
keep delay_exchange k p b = some (b ++ (k, p) ∷ [])
keep work_exchange k p b = some b

pub keep-delayed :
    (k : RoutingKey) (p : Payload) (b c : List (RoutingKey × Payload))
    → keep delay_exchange k p b ≡ some c
    → c ≡ b ++ (k, p) ∷ []
keep-delayed k p b c e = ground arith

abbrev pub reference : Broker
reference = record {
  State = List (RoutingKey × Payload);
  delayed = λ b. b;
  publish = keep;
  delayed_lem = keep-delayed;
}
