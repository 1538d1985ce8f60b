-- ===== src/Messaging.antt =====
-- common/messaging/messaging.service.ts and order/adapters/rabbitmq-expiration.adapter.ts: delayed
-- messages over RabbitMQ. The broker is not part of the repository: it is the parameter `Broker`.
pub mod Reference
pub mod Connection
pub mod Attempts
pub mod Consumers
use kltn_high_concurrency_co.Prelude.{
  ℕ, ◌*◌, ◌≡◌, Bool, true, false, Option, none, some, List, [], ◌∷◌, ◌++◌,
}
use kltn_high_concurrency_co.Common.Ids.{OrderId}
use kltn_high_concurrency_co.Common.Exception.{Result, ok, throw, error}
use kltn_high_concurrency_co.Common.Action.{Action}
use kltn_high_concurrency_co.Order.Ports.{ExpirationPublisherPort}

-- 'delay.x' and 'work.x'
pub data Exchange : Type 0 where
  delay_exchange work_exchange : Exchange

-- 'order.expire'
pub data RoutingKey : Type 0 where
  order_expire_routing_key : RoutingKey

-- The JSON payload { orderId }, which the consumer does not trust to hold an id.
pub record Payload : Type 0 where
  pub order_id : Option OrderId

-- A broker: `delayed` lists what waits in the delay queue. A message that the broker confirms is
-- there behind the others; one that it does not confirm is not.
pub record Broker : Type 1 where
  pub State : Type 0
  pub delayed : State → List (RoutingKey × Payload)
  pub publish : Exchange → RoutingKey → Payload → State → Option State
  pub delayed_lem :
      (k : RoutingKey) (p : Payload) (b c : State)
      → publish delay_exchange k p b ≡ some c
      → delayed c ≡ delayed b ++ (k, p) ∷ []

-- `bookingWindowMs`
abbrev pub booking_window_ms : ℕ → ℕ
booking_window_ms seconds = seconds * 1000

module _ (M : Broker) where
  -- `publish` resolves only after the broker has confirmed.
  unfoldable pub publish : Exchange → RoutingKey → Payload → Action M.State (Unit {0})
  publish exchange routing_key payload b = elim (M.publish exchange routing_key payload b) [
    | none ↦ (throw error, b)
    | some c ↦ (ok tt, c)
  ]

  unfoldable pub publish_delayed : RoutingKey → Payload → Action M.State (Unit {0})
  unfolding publish
  publish_delayed routing_key payload = publish delay_exchange routing_key payload

  unfoldable pub publish_expiration : OrderId → Action M.State (Unit {0})
  unfolding publish_delayed
  publish_expiration order_id =
      publish_delayed order_expire_routing_key (record { order_id = some order_id })

  abbrev pub rabbitmq_expiration_adapter : ExpirationPublisherPort M.State
  rabbitmq_expiration_adapter = record { publish_expiration = publish_expiration }

-- What becomes of a message: `nack` without requeueing drops it.
pub data Settled : Type 0 where
  acked nacked : Settled

abbrev pub settled : {S : Type 0} → Result (Unit {0}) × S → Settled × S
settled (ok _, s) = (acked, s)
settled (throw err, s) = (nacked, s)

-- `handleMessage`, for a message whose JSON can be read
unfoldable pub handle_message :
    {S : Type 0} → (Payload → Action S (Unit {0})) → Payload → S → Settled × S
handle_message handler payload s = settled (handler payload s)
