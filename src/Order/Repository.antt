-- ===== src/Order/Repository.antt =====
-- order/adapters/prisma-order.adapter.ts: orders in the database. The id of a new order, which the
-- database draws, and the clock come in as arguments.
use kltn_high_concurrency_co.Prelude.{
  ℕ, ◌+◌, Bool, false, ◌&&◌, Option, none, some, List, [], ◌∷◌, ◌==◌, if◌then◌else◌, map, mem,
}
use kltn_high_concurrency_co.Common.Ids.{UserId, EventId, SeatId, OrderId, RowId, Millis}
use kltn_high_concurrency_co.Common.Exception.{
  Result, ok, throw, error, duplicate_order_error, seat_not_priceable_error, OrderStatus, pending,
  expired,
}
use kltn_high_concurrency_co.Common.Action.{Action}
use kltn_high_concurrency_co.Prisma.{done, p2002, rejected, Table}
use kltn_high_concurrency_co.SeatLock.Ports.{SeatLockStatus}
use kltn_high_concurrency_co.SeatLock.Audit.{SeatLockRow, no_clash, is_active}
use kltn_high_concurrency_co.Order.Ports.{
  OrderEntity, SeatPricing, CreateOrderData, ExpireResult, OrderRepositoryPort, is_pending_status,
}

-- A seat with the price of its ticket type, as `loadSeatPricing` selects them.
pub record SeatRow : Type 0 where
  pub id : SeatId
  pub event_id : EventId
  pub ticket_type_id : Option RowId
  pub price : Option ℕ

pub record OrderItemRow : Type 0 where
  pub seat_id : Option SeatId
  pub ticket_type_id : RowId
  pub unit_price : ℕ

pub record OrderRow : Type 0 where
  pub id : OrderId
  pub user_id : UserId
  pub event_id : EventId
  pub idempotency_key : ℕ
  pub status : OrderStatus
  pub total_amount : ℕ
  pub expires_at : Millis
  pub order_items : List OrderItemRow

abbrev pub same_seat : SeatRow → SeatRow → Bool
same_seat r s = r.id == s.id

-- @@unique([userId, idempotencyKey])
abbrev pub same_key : OrderRow → OrderRow → Bool
same_key r s = r.user_id == s.user_id && r.idempotency_key == s.idempotency_key

abbrev pub to_entity : OrderRow → OrderEntity
to_entity row = record {
  id = row.id;
  user_id = row.user_id;
  event_id = row.event_id;
  status = row.status;
  total_amount = row.total_amount;
  expires_at = row.expires_at;
}

-- `byId.get(seatId)`: of two rows with one id the map keeps the later.
unfoldable pub get_by_id : SeatId → List SeatRow → Option SeatRow
get_by_id seat_id [] = none
get_by_id seat_id (r ∷ rows) = elim (get_by_id seat_id rows) [
  | some s ↦ some s
  | none ↦ if r.id == seat_id then some r else none
]

-- One seat's pricing, or the error of a seat that has none.
abbrev pub price_row : SeatId → Option RowId → Option ℕ → Result SeatPricing
price_row seat_id (some ticket_type_id) (some price) =
    ok (record { seat_id = seat_id; ticket_type_id = ticket_type_id; unit_price = price })
price_row seat_id _ _ = throw (seat_not_priceable_error seat_id)

abbrev pub price_seat : SeatId → Option SeatRow → Result SeatPricing
price_seat seat_id none = throw (seat_not_priceable_error seat_id)
price_seat seat_id (some seat) = price_row seat_id seat.ticket_type_id seat.price

abbrev pub cons_result : {A : Type 0} → Result A → Result (List A) → Result (List A)
cons_result (ok a) (ok as') = ok (a ∷ as')
cons_result (ok a) (throw e) = throw e
cons_result (throw e) r = throw e

-- seatIds.map(…): the first seat without a price throws.
unfoldable pub price_seats : List SeatRow → List SeatId → Result (List SeatPricing)
price_seats rows [] = ok []
price_seats rows (x ∷ xs) = cons_result (price_seat x (get_by_id x rows)) (price_seats rows xs)

-- data.items.reduce(…)
unfoldable pub total_of : List SeatPricing → ℕ
total_of [] = 0
total_of (item ∷ items) = item.unit_price + total_of items

abbrev pub item_row : SeatPricing → OrderItemRow
item_row item = record {
  seat_id = some item.seat_id;
  ticket_type_id = item.ticket_type_id;
  unit_price = item.unit_price;
}

abbrev pub new_order : OrderId → CreateOrderData → OrderRow
new_order fresh input = record {
  id = fresh;
  user_id = input.user_id;
  event_id = input.event_id;
  idempotency_key = input.idempotency_key;
  status = pending;
  total_amount = total_of input.items;
  expires_at = input.expires_at;
  order_items = map item_row input.items;
}

abbrev pub by_key : UserId → ℕ → OrderRow → Bool
by_key user_id key row = row.user_id == user_id && row.idempotency_key == key

abbrev pub pending_order : OrderId → OrderRow → Bool
pending_order order_id row = row.id == order_id && is_pending_status row.status

abbrev pub expire_row : OrderRow → OrderRow
expire_row row = record row { status = expired }

-- .map((item) => item.seatId).filter((id) => id !== null)
unfoldable pub seat_ids_of : List OrderItemRow → List SeatId
seat_ids_of [] = []
seat_ids_of (item ∷ items) = elim item.seat_id [
  | none ↦ seat_ids_of items
  | some x ↦ x ∷ seat_ids_of items
]

abbrev pub expirable_lock : List SeatId → UserId → SeatLockRow → Bool
expirable_lock seat_ids user_id row =
    mem row.seat_id seat_ids && row.user_id == user_id && is_active row.status

abbrev pub expire_lock : Millis → SeatLockRow → SeatLockRow
expire_lock now row = record row { status = SeatLockStatus.expired; released_at = some now }

-- The tables that orders are made of.
pub record Tables : Type 1 where
  pub seats : Table SeatRow same_seat
  pub orders : Table OrderRow same_key
  pub locks : Table SeatLockRow no_clash

pub record Database (T : Tables) : Type 0 where
  pub seats : T.seats.State
  pub orders : T.orders.State
  pub locks : T.locks.State

module _ (T : Tables) (fresh : OrderId) (now : Millis) where
  unfoldable pub load_seat_pricing : EventId → List SeatId → Action (Database T) (List SeatPricing)
  load_seat_pricing event_id seat_ids d =
      let rows = T.seats.find_many (λ r. mem r.id seat_ids && r.event_id == event_id) d.seats in
      (price_seats rows seat_ids, d)

  -- The end of the transaction: what the callback threw rolls the insert back, and so does a commit
  -- that fails. What the callback did to its own state stays.
  abbrev settle_tx :
      {S : Type 0}
      → OrderRow
      → Database T
      → T.orders.State
      → Result (Unit {0}) × S
      → Result OrderEntity × (S × Database T)
  settle_tx row d o (throw err, s) = (throw err, (s, d))
  settle_tx row d o (ok _, s) = elim (T.orders.commit o) [
    | none ↦ (throw error, (s, d))
    | some o' ↦ (ok (to_entity row), (s, record d { orders = o' }))
  ]

  unfoldable pub create :
      {S : Type 0} → CreateOrderData → Action S (Unit {0}) → Action (S × Database T) OrderEntity
  create input confirm_hold (s, d) = elim (T.orders.create (new_order fresh input) d.orders) [
    | p2002 ↦ (throw (duplicate_order_error input.idempotency_key), (s, d))
    | rejected ↦ (throw error, (s, d))
    | done o ↦ settle_tx (new_order fresh input) d o (confirm_hold s)
  ]

  unfoldable pub find_by_idempotency_key : UserId → ℕ → Action (Database T) (Option OrderEntity)
  find_by_idempotency_key user_id key d = elim (T.orders.find_first (by_key user_id key) d.orders) [
    | none ↦ (ok none, d)
    | some row ↦ (ok (some (to_entity row)), d)
  ]

  abbrev pub expire_result : ℕ → Option OrderRow → ExpireResult
  expire_result count none = record { changed = false; user_id = 0; event_id = 0; seat_ids = [] }
  expire_result count (some order) = record {
    changed = count == 1;
    user_id = order.user_id;
    event_id = order.event_id;
    seat_ids = seat_ids_of order.order_items;
  }

  unfoldable pub mark_expired_if_pending : OrderId → Action (Database T) ExpireResult
  mark_expired_if_pending order_id d =
      elim (T.orders.update_many (pending_order order_id) expire_row d.orders) [
        | none ↦ (throw error, d)
        | some (count, o) ↦ (
          ok (expire_result count (T.orders.find_first (λ row. row.id == order_id) o)),
          record d { orders = o },
        )
      ]

  unfoldable pub expire_seat_lock_audit : List SeatId → UserId → Action (Database T) (Unit {0})
  expire_seat_lock_audit [] user_id d = (ok tt, d)
  expire_seat_lock_audit (x ∷ xs) user_id d =
      elim (T.locks.update_many (expirable_lock (x ∷ xs) user_id) (expire_lock now) d.locks) [
        | none ↦ (throw error, d)
        | some (count, l) ↦ (ok tt, record d { locks = l })
      ]

  abbrev pub prisma_order_adapter : (S : Type 0) → OrderRepositoryPort S (Database T)
  prisma_order_adapter S = record {
    load_seat_pricing = load_seat_pricing;
    create = create;
    find_by_idempotency_key = find_by_idempotency_key;
    mark_expired_if_pending = mark_expired_if_pending;
    expire_seat_lock_audit = expire_seat_lock_audit;
  }
