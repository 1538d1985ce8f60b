-- ===== src/Order/Ports.antt =====
-- order/domain/order.entity.ts and order/application/ports: the order and the ports of its use
-- cases. Amounts of money are decimals with two places: they are counted in cents.
use kltn_high_concurrency_co.Prelude.{ℕ, Bool, true, false, Option, List, ◌==◌}
use kltn_high_concurrency_co.Common.Ids.{UserId, EventId, SeatId, OrderId, RowId, Millis}
use kltn_high_concurrency_co.Common.Exception.{OrderStatus, pending}
use kltn_high_concurrency_co.Common.Action.{Action}

pub record OrderEntity : Type 0 where
  pub id : OrderId
  pub user_id : UserId
  pub event_id : EventId
  pub status : OrderStatus
  pub total_amount : ℕ
  pub expires_at : Millis

abbrev pub is_pending_status : OrderStatus → Bool
is_pending_status pending = true
is_pending_status _ = false

-- `OrderEntity.isPending`
abbrev pub is_pending : OrderEntity → Bool
is_pending o = is_pending_status o.status

-- `OrderEntity.isOwnedBy`
abbrev pub is_owned_by : OrderEntity → UserId → Bool
is_owned_by o user_id = o.user_id == user_id

pub record SeatPricing : Type 0 where
  pub seat_id : SeatId
  pub ticket_type_id : RowId
  pub unit_price : ℕ

pub record CreateOrderData : Type 0 where
  pub user_id : UserId
  pub event_id : EventId
  pub idempotency_key : ℕ
  pub expires_at : Millis
  pub items : List SeatPricing

pub record ExpireResult : Type 0 where
  pub changed : Bool
  pub user_id : UserId
  pub event_id : EventId
  pub seat_ids : List SeatId

-- `S` is the state that the callback of `create` changes, `D` the database's.
pub record OrderRepositoryPort (S D : Type 0) : Type 0 where
  pub load_seat_pricing : EventId → List SeatId → Action D (List SeatPricing)
  pub create : CreateOrderData → Action S (Unit {0}) → Action (S × D) OrderEntity
  pub find_by_idempotency_key : UserId → ℕ → Action D (Option OrderEntity)
  pub mark_expired_if_pending : OrderId → Action D ExpireResult
  pub expire_seat_lock_audit : List SeatId → UserId → Action D (Unit {0})

pub record ExpirationPublisherPort (B : Type 0) : Type 0 where
  pub publish_expiration : OrderId → Action B (Unit {0})
