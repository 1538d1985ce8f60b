-- ===== src/Tests/Orders.antt =====
-- Orders and their timeouts at concrete inputs.
use kltn_high_concurrency_co.Prelude.{
  ◌≡◌, refl, true, false, none, some, List, [], ◌∷◌, arith, any, revise, count, find, mem, All,
  ◌==◌,
}
use kltn_high_concurrency_co.Common.Exception.{pending, paid}
use kltn_high_concurrency_co.Redis.{Redis}
use kltn_high_concurrency_co.Redis.Reference
use kltn_high_concurrency_co.Prisma.Reference.{reference}
use kltn_high_concurrency_co.Messaging.{RoutingKey, Payload}
use kltn_high_concurrency_co.SeatLock.Audit.{SeatLockRow, no_clash}
use kltn_high_concurrency_co.SeatLock.Adapter.{schema}
use kltn_high_concurrency_co.SeatLock.Spec.{Holds, acquire_spec}
use kltn_high_concurrency_co.SeatHold.Spec.{owns}
use kltn_high_concurrency_co.Holding.Drift.{RunsOutWithin}
use kltn_high_concurrency_co.Tests.Given.{broker}
use kltn_high_concurrency_co.Order.Repository.{
  SeatRow, OrderRow, same_seat, same_key, pending_order, expire_row, seat_ids_of, Tables, Database,
}
use kltn_high_concurrency_co.Order.UseCases.{CreateOrderInput}
use kltn_high_concurrency_co.Order.Attempt.{create_order_here}
use kltn_high_concurrency_co.Order.Creation.{Answer, create_order-Answer}
use kltn_high_concurrency_co.Order.Replay.{taken, create_order-existing}
use kltn_high_concurrency_co.Order.Expiry.{
  expire_order_here, expire_order-again, expire_order-frees, expire_order-late,
}

abbrev server : Redis schema
server = Reference.reference schema

abbrev tables : Tables
tables = record {
  seats = reference SeatRow same_seat;
  orders = reference OrderRow same_key;
  locks = reference SeatLockRow no_clash;
}

abbrev seat_7 : SeatRow
seat_7 = record { id = 7; event_id = 1; ticket_type_id = some 70; price = some 5000 }

abbrev seat_8 : SeatRow
seat_8 = record { id = 8; event_id = 1; ticket_type_id = some 80; price = some 2500 }

abbrev seat_rows : List SeatRow
seat_rows = seat_7 ∷ seat_8 ∷ []

-- User 5 has an order for seat 7 that is pending, and one that is paid.
abbrev pending_row : OrderRow
pending_row = record {
  id = 20;
  user_id = 5;
  event_id = 1;
  idempotency_key = 900;
  status = pending;
  total_amount = 5000;
  expires_at = 601000;
  order_items = record { seat_id = some 7; ticket_type_id = 70; unit_price = 5000 } ∷ [];
}

abbrev paid_row : OrderRow
paid_row = record pending_row { id = 21; idempotency_key = 901; status = paid }

abbrev database : Database tables
database = record { seats = seat_rows; orders = paid_row ∷ pending_row ∷ []; locks = [] }

-- User 5 holds seat 7.
abbrev held : Holds
held =
    (acquire_spec
      (record { event_id = 1; seat_id = 7; user_id = 5; ttl_seconds = 600; max_per_user = 2 })
      (record { strings = λ k. none; sets = λ k. []; queues = λ k. [] })).1

abbrev no_messages : List (RoutingKey × Payload)
no_messages = []

abbrev new_request : CreateOrderInput
new_request = record { user_id = 5; event_id = 1; seat_ids = 7 ∷ []; idempotency_key = 902 }

abbrev old_request : CreateOrderInput
old_request = record new_request { idempotency_key = 900 }

create_order-Answer_example :
    Answer server tables broker 22 1000 600 new_request held no_messages database
      (create_order_here server tables broker 22 1000 600 new_request
        ((held, database), no_messages)).1.0.1
      (create_order_here server tables broker 22 1000 600 new_request
        ((held, database), no_messages)).0
create_order-Answer_example =
    create_order-Answer server tables broker 22 1000 600 new_request held database no_messages

key_taken : taken 5 900 (paid_row ∷ pending_row ∷ []) ≡ true
unfolding any
key_taken = refl

create_order-existing_example :
    (create_order_here server tables broker 22 1000 600 old_request
      ((held, database), no_messages)).1.0.1
    ≡ database
create_order-existing_example =
    create_order-existing server tables broker 22 1000 600 old_request held database no_messages
      key_taken

abbrev expired_orders : List OrderRow
expired_orders = revise (pending_order 20) expire_row (paid_row ∷ pending_row ∷ [])

marked :
    tables.orders.update_many (pending_order 20) expire_row (paid_row ∷ pending_row ∷ [])
    ≡ some (1, expired_orders)
unfolding count
marked = refl

abbrev after : Database tables
after = (expire_order_here server tables 22 1000 20 (held, database)).1.1

expire_order-again_example :
    ((expire_order_here server tables 22 1000 20 (held, after)).1.0 ≡ held)
    × ((expire_order_here server tables 22 1000 20 (held, after)).1.1.orders ≡ after.orders)
    × ((expire_order_here server tables 22 1000 20 (held, after)).1.1.locks ≡ after.locks)
expire_order-again_example =
    expire_order-again server tables 22 1000 20 held held database 1 expired_orders marked

found_expired :
    tables.orders.find_first (λ r. r.id == 20) expired_orders ≡ some (expire_row pending_row)
unfolding find revise
found_expired = refl

expire_order-frees_example :
    All
      (λ x. owns 1 5 (expire_order_here server tables 22 1000 20 (held, database)).1.0 x ≡ false)
      (seat_ids_of pending_row.order_items)
expire_order-frees_example =
    expire_order-frees server tables 22 1000 20 held database expired_orders
      (expire_row pending_row) marked found_expired

held-RunsOutWithin : RunsOutWithin 600 held
unfolding acquire_spec mem
held-RunsOutWithin e x = ground arith

expire_order-late_example :
    (expire_order_here server tables 22 1000 20 (server.elapse 600 held, database)).1.0
    ≡ server.elapse 600 held
expire_order-late_example =
    expire_order-late server tables 22 1000 20 600 held database held-RunsOutWithin
