-- ===== src/Order/Replay.antt =====
-- Requests for an order that come again.
use kltn_high_concurrency_co.Prelude.{ℕ, ◌≡◌, refl, Bool, true, List, [], ◌∷◌, arith, any}
use kltn_high_concurrency_co.Common.Ids.{UserId, OrderId, Millis}
use kltn_high_concurrency_co.Common.Exception.{Result}
use kltn_high_concurrency_co.Redis.{Redis}
use kltn_high_concurrency_co.Messaging.{Broker}
use kltn_high_concurrency_co.SeatLock.Adapter.{schema}
use kltn_high_concurrency_co.Order.Repository.{OrderRow, same_key, by_key, Tables, Database}
use kltn_high_concurrency_co.Order.UseCases.{CreateOrderInput, CreateOrderOutput}
use kltn_high_concurrency_co.Order.Attempt.{
  create_order_here, row_of, Outcome, placed, unpublished, answered_again, key_consumed, key_gone,
  hold_expired, not_created, not_committed,
}
use kltn_high_concurrency_co.Order.Creation.{
  create_order-Answer, Answer, not_held, not_priceable, tried,
}

abbrev pub taken : UserId → ℕ → List OrderRow → Bool
taken u key rows = any (by_key u key) rows

any-same_key :
    (row : OrderRow) (rows : List OrderRow)
    → any (same_key row) rows ≡ taken row.user_id row.idempotency_key rows
unfolding any
any-same_key row [] = refl
any-same_key row (r ∷ rows) = ground (arith, any-same_key row rows)

module _ (R : Redis schema) (T : Tables) (M : Broker) (fresh : OrderId) (now : Millis)
    (ttl : ℕ) where
  Outcome-existing :
      (input : CreateOrderInput) (row : OrderRow) (s : R.State) (b : M.State) (d d' : Database T)
      (r : Result CreateOrderOutput)
      → Outcome R T M fresh now ttl input row s b d d' r
      → taken row.user_id row.idempotency_key (T.orders.rows d.orders) ≡ true
      → d' ≡ d
  Outcome-existing input row s b d d' r (placed b' free added sent e) h =
      ground (arith, any-same_key row (T.orders.rows d.orders))
  Outcome-existing input row s b d d' r (unpublished free added lost e) h =
      ground (arith, any-same_key row (T.orders.rows d.orders))
  Outcome-existing input row s b d d' r (answered_again old clash same found live e) h = same
  Outcome-existing input row s b d d' r (key_consumed old clash same found dead e) h = same
  Outcome-existing input row s b d d' r (key_gone clash same gone e) h = same
  Outcome-existing input row s b d d' r (hold_expired lost same e) h = same
  Outcome-existing input row s b d d' r (not_created bad same e) h = same
  Outcome-existing input row s b d d' r (not_committed o made bad same e) h = same

  Answer-existing :
      (input : CreateOrderInput) (s : R.State) (b : M.State) (d d' : Database T)
      (r : Result CreateOrderOutput)
      → Answer R T M fresh now ttl input s b d d' r
      → taken input.user_id input.idempotency_key (T.orders.rows d.orders) ≡ true
      → d' ≡ d
  Answer-existing input s b d d' r (not_held x lost same e) h = same
  Answer-existing input s b d d' r (not_priceable err held priced same e) h = same
  Answer-existing input s b d d' r (tried items held priced out) h =
      Outcome-existing input (row_of R T M fresh now ttl input items) s b d d' r out h

  -- If the user has an order with the idempotency key, then no request with it changes the database,
  -- whatever its seats are, and whatever the state of the order is.
  pub create_order-existing :
      (input : CreateOrderInput) (s : R.State) (d : Database T) (b : M.State)
      → taken input.user_id input.idempotency_key (T.orders.rows d.orders) ≡ true
      → (create_order_here R T M fresh now ttl input ((s, d), b)).1.0.1 ≡ d
  create_order-existing input s d b h =
      let after = create_order_here R T M fresh now ttl input ((s, d), b) in
      Answer-existing input s b d after.1.0.1 after.0
        (create_order-Answer R T M fresh now ttl input s d b) h
