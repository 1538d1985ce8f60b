-- ===== src/Order/UseCases.antt =====
-- order/application, order/order.controller.ts and order/timeout: creating an order from held seats,
-- and expiring it, over any implementation of the ports. The state is that of the seat holds, the
-- database and the broker: (S × D) × B.
use kltn_high_concurrency_co.Prelude.{
  ℕ, ◌+◌, ◌*◌, Bool, true, false, Option, none, some, List, [], ◌∷◌,
}
use kltn_high_concurrency_co.Common.Ids.{UserId, EventId, SeatId, OrderId, Millis}
use kltn_high_concurrency_co.Common.Exception.{
  Exception, Result, ok, throw, seat_hold_expired_error, duplicate_order_error,
  order_key_consumed_error, seat_not_priceable_error, http_exception, conflict,
  unprocessable_entity, ErrorCode,
}
use kltn_high_concurrency_co.Common.Exception
use kltn_high_concurrency_co.Common.Action.{
  Action, return, raise, ◌>>=◌, ◌>>◌, try_catch, on_first, on_second,
}
use kltn_high_concurrency_co.SeatHold.Adapter.{VerifyHeldResult, SeatHoldPort}
use kltn_high_concurrency_co.Order.Ports.{
  OrderEntity, SeatPricing, CreateOrderData, ExpireResult, OrderRepositoryPort,
  ExpirationPublisherPort, is_pending,
}

pub record CreateOrderInput : Type 0 where
  pub user_id : UserId
  pub event_id : EventId
  pub seat_ids : List SeatId
  pub idempotency_key : ℕ

pub record CreateOrderOutput : Type 0 where
  pub order : OrderEntity
  pub replayed : Bool

-- verify.failedSeatId ?? seatIds[0]
abbrev pub lost_seat : Option SeatId → List SeatId → List SeatId
lost_seat (some x) seat_ids = x ∷ []
lost_seat none [] = []
lost_seat none (x ∷ xs) = x ∷ []

abbrev pub order_data : Millis → ℕ → CreateOrderInput → List SeatPricing → CreateOrderData
order_data now ttl_seconds input pricing = record {
  user_id = input.user_id;
  event_id = input.event_id;
  idempotency_key = input.idempotency_key;
  expires_at = now + ttl_seconds * 1000;
  items = pricing;
}

module _ {S D B : Type 0} (repo : OrderRepositoryPort S D) (seat_hold : SeatHoldPort S)
    (expiration : ExpirationPublisherPort B) where
  unfoldable pub check_extended : List SeatId → Bool → Action S (Unit {0})
  check_extended seat_ids true = return tt
  check_extended seat_ids false = raise (seat_hold_expired_error seat_ids)

  -- the callback that runs inside the transaction
  unfoldable pub confirm_hold : ℕ → CreateOrderInput → Action S (Unit {0})
  unfolding check_extended
  confirm_hold ttl_seconds input = do
    extended ← seat_hold.extend_hold input.event_id input.seat_ids input.user_id ttl_seconds
    check_extended input.seat_ids extended

  unfoldable pub check_existing : Option OrderEntity → Action D CreateOrderOutput
  check_existing none = raise (order_key_consumed_error none none)
  check_existing (some existing) = elim (is_pending existing) [
    | true ↦ return (record { order = existing; replayed = true })
    | false ↦ raise (order_key_consumed_error (some existing.id) (some existing.status))
  ]

  -- `resolveReplay`
  unfoldable pub resolve_replay : ℕ → UserId → Action D CreateOrderOutput
  unfolding check_existing
  resolve_replay idempotency_key user_id = do
    existing ← repo.find_by_idempotency_key user_id idempotency_key
    check_existing existing

  -- the `catch` of `execute`
  unfoldable pub on_error : CreateOrderInput → Exception → Action ((S × D) × B) CreateOrderOutput
  unfolding resolve_replay
  on_error input (duplicate_order_error key) =
      on_first (on_second (resolve_replay input.idempotency_key input.user_id))
  on_error input err = raise err

  unfoldable pub place :
      Millis → ℕ → CreateOrderInput → List SeatPricing → Action ((S × D) × B) CreateOrderOutput
  unfolding confirm_hold on_error
  place now ttl_seconds input pricing =
      try_catch
        (do
          order ← on_first (
              repo.create (order_data now ttl_seconds input pricing)
                (confirm_hold ttl_seconds input))
          on_second (expiration.publish_expiration order.id)
          return (record { order = order; replayed = false }))
        (on_error input)

  unfoldable pub check_held : List SeatId → VerifyHeldResult → Action ((S × D) × B) (Unit {0})
  check_held seat_ids verify = elim verify.is_ok [
    | true ↦ return tt
    | false ↦ raise (seat_hold_expired_error (lost_seat verify.failed_seat_id seat_ids))
  ]

  -- `CreateOrderUseCase.execute`; `ttl_seconds` is the configured BOOKING_WINDOW_SECONDS.
  unfoldable pub create_order :
      Millis → ℕ → CreateOrderInput → Action ((S × D) × B) CreateOrderOutput
  unfolding place check_held
  create_order now ttl_seconds input = do
    verify ← on_first (on_first (seat_hold.verify_held input.event_id input.seat_ids input.user_id))
    check_held input.seat_ids verify
    pricing ← on_first (on_second (repo.load_seat_pricing input.event_id input.seat_ids))
    place now ttl_seconds input pricing

module _ {S D : Type 0} (repo : OrderRepositoryPort S D) (seat_hold : SeatHoldPort S) where
  unfoldable pub release_each : EventId → UserId → List SeatId → Action (S × D) (Unit {0})
  release_each event_id user_id [] = return tt
  release_each event_id user_id (x ∷ xs) = do
    on_first (seat_hold.release_hold event_id x user_id)
    release_each event_id user_id xs

  unfoldable pub settle_expired : ExpireResult → Action (S × D) (Unit {0})
  settle_expired result = elim result.changed [
    | false ↦ return tt
    | true ↦ do
      release_each result.event_id result.user_id result.seat_ids
      on_second (repo.expire_seat_lock_audit result.seat_ids result.user_id)
  ]

  -- `ExpireOrderUseCase.execute`
  unfoldable pub expire_order : OrderId → Action (S × D) (Unit {0})
  unfolding settle_expired release_each
  expire_order order_id = do
    result ← on_second (repo.mark_expired_if_pending order_id)
    settle_expired result

  -- the handler that `OrderTimeoutConsumer` registers: a payload without an order id is dropped
  unfoldable pub on_timeout : Option OrderId → Action (S × D) (Unit {0})
  on_timeout none = return tt
  on_timeout (some order_id) = expire_order order_id

-- `OrderController.create`: the errors that it turns into HTTP exceptions
abbrev pub order_error : {A : Type 0} → Exception → Result A
order_error (seat_hold_expired_error xs) =
    throw (http_exception unprocessable_entity (some ErrorCode.seat_hold_expired))
order_error (seat_not_priceable_error x) =
    throw (http_exception unprocessable_entity (some ErrorCode.seat_not_priceable))
order_error (order_key_consumed_error id status) =
    throw (http_exception conflict (some ErrorCode.order_key_consumed))
order_error err = throw err

-- the status of the route: 201 for a new order, 200 for a replay
abbrev pub order_status : Result CreateOrderOutput → ℕ
order_status (ok out) = elim out.replayed [ true ↦ 200 | false ↦ 201 ]
order_status (throw err) = Exception.catch err
