-- ===== src/Order/Attempt.antt =====
-- What an attempt to add the row of an order leaves in the database.
use kltn_high_concurrency_co.Prelude.{
  ℕ, ◌≡◌, ◌∙◌, refl, sym, Bool, true, false, Option, none, some, List, [], ◌∷◌, ◌++◌, arith, any,
  find, Bool-cases, Option-cases, inl, inr,
}
use kltn_high_concurrency_co.Common.Ids.{OrderId, Millis}
use kltn_high_concurrency_co.Common.Exception.{
  Result, ok, throw, error, seat_hold_expired_error, order_key_consumed_error,
}
use kltn_high_concurrency_co.Common.Action.{Action}
use kltn_high_concurrency_co.Redis.{Redis}
use kltn_high_concurrency_co.Prisma.{Write-cases, done, p2002, rejected}
use kltn_high_concurrency_co.Messaging.{
  Broker, rabbitmq_expiration_adapter, publish_expiration, delay_exchange, order_expire_routing_key,
}
use kltn_high_concurrency_co.SeatLock.Adapter.{schema}
use kltn_high_concurrency_co.SeatHold.Adapter.{redis_seat_hold_adapter, extend_hold}
use kltn_high_concurrency_co.Order.Ports.{SeatPricing, is_pending_status}
use kltn_high_concurrency_co.Order.Repository.{
  OrderRow, same_key, by_key, to_entity, new_order, Tables, Database, prisma_order_adapter, create,
  find_by_idempotency_key,
}
use kltn_high_concurrency_co.Order.UseCases.{
  CreateOrderInput, CreateOrderOutput, order_data, create_order, place,
}

module _ (R : Redis schema) (T : Tables) (M : Broker) (fresh : OrderId) (now : Millis)
    (ttl : ℕ) where
  abbrev pub World : Type 0
  World = (R.State × Database T) × M.State

  -- The use case over its three adapters.
  abbrev pub create_order_here : CreateOrderInput → Action World CreateOrderOutput
  create_order_here =
      create_order (prisma_order_adapter T fresh now R.State) (redis_seat_hold_adapter R)
        (rabbitmq_expiration_adapter M) now ttl

  abbrev place_here : CreateOrderInput → List SeatPricing → Action World CreateOrderOutput
  place_here =
      place (prisma_order_adapter T fresh now R.State) (redis_seat_hold_adapter R)
        (rabbitmq_expiration_adapter M) now ttl

  -- The row that the request would add.
  abbrev pub row_of : CreateOrderInput → List SeatPricing → OrderRow
  row_of input items = new_order fresh (order_data now ttl input items)

  abbrev timeout_of_order : M.State → Option M.State
  timeout_of_order =
      M.publish delay_exchange order_expire_routing_key (record { order_id = some fresh })

  -- How an attempt to add the row ends, with `s` the holds, `d` and `b` the database and the broker before,
  -- `d'` the database after and `r` the answer.
  pub data Outcome (input : CreateOrderInput) (row : OrderRow) (s : R.State) (b : M.State)
      (d d' : Database T) (r : Result CreateOrderOutput) : Type 0 where
    -- no row has the key: the row is added, and its timeout is published
    placed :
        (b' : M.State)
        → any (same_key row) (T.orders.rows d.orders) ≡ false
        → T.orders.rows d'.orders ≡ T.orders.rows d.orders ++ row ∷ []
        → timeout_of_order b ≡ some b'
        → r ≡ ok (record { order = to_entity row; replayed = false })
        → Outcome input row s b d d' r
    -- the same, but the broker does not take the timeout
    unpublished :
        any (same_key row) (T.orders.rows d.orders) ≡ false
        → T.orders.rows d'.orders ≡ T.orders.rows d.orders ++ row ∷ []
        → timeout_of_order b ≡ none
        → r ≡ throw error
        → Outcome input row s b d d' r
    -- the key is taken: a pending order with it is answered again
    answered_again :
        (old : OrderRow)
        → T.orders.create row d.orders ≡ p2002
        → d' ≡ d
        → find (by_key row.user_id row.idempotency_key) (T.orders.rows d.orders) ≡ some old
        → is_pending_status old.status ≡ true
        → r ≡ ok (record { order = to_entity old; replayed = true })
        → Outcome input row s b d d' r
    -- another order with it is named
    key_consumed :
        (old : OrderRow)
        → T.orders.create row d.orders ≡ p2002
        → d' ≡ d
        → find (by_key row.user_id row.idempotency_key) (T.orders.rows d.orders) ≡ some old
        → is_pending_status old.status ≡ false
        → r ≡ throw (order_key_consumed_error (some old.id) (some old.status))
        → Outcome input row s b d d' r
    -- the order with it is not found
    key_gone :
        T.orders.create row d.orders ≡ p2002
        → d' ≡ d
        → find (by_key row.user_id row.idempotency_key) (T.orders.rows d.orders) ≡ none
        → r ≡ throw (order_key_consumed_error none none)
        → Outcome input row s b d d' r
    -- the holds could not be prolonged
    hold_expired :
        (extend_hold R input.event_id input.seat_ids input.user_id ttl s).0 ≡ ok false
        → d' ≡ d
        → r ≡ throw (seat_hold_expired_error input.seat_ids)
        → Outcome input row s b d d' r
    -- the database rejects the row
    not_created :
        T.orders.create row d.orders ≡ rejected
        → d' ≡ d
        → r ≡ throw error
        → Outcome input row s b d d' r
    -- the database rejects the end of the transaction
    not_committed :
        (o : T.orders.State)
        → T.orders.create row d.orders ≡ done o
        → T.orders.commit o ≡ none
        → d' ≡ d
        → r ≡ throw error
        → Outcome input row s b d d' r

  place-p2002 :
      (input : CreateOrderInput) (items : List SeatPricing) (s : R.State) (d : Database T)
      (b : M.State)
      → T.orders.create (row_of input items) d.orders ≡ p2002
      → Outcome input
          (row_of input items)
          s
          b
          d
          (place_here input items ((s, d), b)).1.0.1
          (place_here input items ((s, d), b)).0
  unfolding place create find_by_idempotency_key
  place-p2002 input items s d b e =
      let u = input.user_id in
      let k = input.idempotency_key in
      elim (Option-cases (T.orders.find_first (by_key u k) d.orders)) [
        | inl gone ↦
            key_gone e (ground arith) (sym (T.orders.find_first_lem (by_key u k) d.orders) ∙ gone)
              (ground arith)
        | inr (old, found) ↦ elim (Bool-cases (is_pending_status old.status)) [
          | inl live ↦
              answered_again old e (ground arith)
                (sym (T.orders.find_first_lem (by_key u k) d.orders) ∙ found) live (ground arith)
          | inr dead ↦
              key_consumed old e (ground arith)
                (sym (T.orders.find_first_lem (by_key u k) d.orders) ∙ found) dead (ground arith)
        ]
      ]

  place-rejected :
      (input : CreateOrderInput) (items : List SeatPricing) (s : R.State) (d : Database T)
      (b : M.State)
      → T.orders.create (row_of input items) d.orders ≡ rejected
      → Outcome input
          (row_of input items)
          s
          b
          d
          (place_here input items ((s, d), b)).1.0.1
          (place_here input items ((s, d), b)).0
  unfolding place create
  place-rejected input items s d b e = not_created e (ground arith) (ground arith)

  -- `extendHold` answers, and does not throw
  extend_hold-answers :
      (i : CreateOrderInput) (s : R.State)
      → (flag : Bool) × ((extend_hold R i.event_id i.seat_ids i.user_id ttl s).0 ≡ ok flag)
  unfolding extend_hold
  extend_hold-answers i s = (_, refl)

  place-done :
      (input : CreateOrderInput) (items : List SeatPricing) (s : R.State) (d : Database T)
      (b : M.State) (o : T.orders.State)
      → T.orders.create (row_of input items) d.orders ≡ done o
      → Outcome input
          (row_of input items)
          s
          b
          d
          (place_here input items ((s, d), b)).1.0.1
          (place_here input items ((s, d), b)).0
  unfolding place create publish_expiration
  place-done input items s d b o e =
      let (rows, free) = T.orders.create_done (row_of input items) d.orders o e in
      let (flag, extended) = extend_hold-answers input s in
      elim (Bool-cases flag) [
        | inr lost ↦ hold_expired (ground arith) (ground arith) (ground arith)
        | inl held ↦ elim (Option-cases (T.orders.commit o)) [
          | inl failed ↦ not_committed o e failed (ground arith) (ground arith)
          | inr (o', committed) ↦
              let added = T.orders.commit_done o o' committed ∙ rows in
              elim (Option-cases (
                M.publish delay_exchange order_expire_routing_key (record { order_id = some fresh })
                  b)) [
                    | inl lost ↦ unpublished free (ground arith) lost (ground arith)
                    | inr (c, sent) ↦ placed c free (ground arith) sent (ground arith)
                  ]
        ]
      ]

  pub place-Outcome :
      (input : CreateOrderInput) (items : List SeatPricing) (s : R.State) (d : Database T)
      (b : M.State)
      → Outcome input
          (row_of input items)
          s
          b
          d
          (place_here input items ((s, d), b)).1.0.1
          (place_here input items ((s, d), b)).0
  place-Outcome input items s d b =
      elim (Write-cases (T.orders.create (row_of input items) d.orders)) [
        | inl (o, e) ↦ place-done input items s d b o e
        | inr (inl e) ↦ place-p2002 input items s d b e
        | inr (inr e) ↦ place-rejected input items s d b e
      ]
