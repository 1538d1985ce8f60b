-- ===== src/Order/Expiry.antt =====
-- What the timeout of an order does to the database and to the holds of its seats.
use kltn_high_concurrency_co.Prelude.{
  ℕ, ◌≡◌, ◌⊎◌, ◌∙◌, refl, ap, true, false, some, List, [], ◌∷◌, arith, any, revise, revise_none,
  count_none, any-revise, Bool-cases, Option-cases, inl, inr, ◌==◌, All,
}
use kltn_high_concurrency_co.Common.Ids.{UserId, SeatId, OrderId, Millis}
use kltn_high_concurrency_co.Common.Exception.{ok, throw, error}
use kltn_high_concurrency_co.Common.Action.{Action}
use kltn_high_concurrency_co.Redis.{Redis}
use kltn_high_concurrency_co.SeatLock.Adapter.{schema}
use kltn_high_concurrency_co.SeatHold.Adapter.{redis_seat_hold_adapter}
use kltn_high_concurrency_co.SeatHold.Spec.{owns}
use kltn_high_concurrency_co.Holding.Drift.{RunsOutWithin, gone}
use kltn_high_concurrency_co.Order.Ports.{ExpireResult}
use kltn_high_concurrency_co.Order.Repository.{
  OrderRow, pending_order, expirable_lock, expire_lock, seat_ids_of, expire_row, expire_result,
  Tables, Database, prisma_order_adapter, mark_expired_if_pending, expire_seat_lock_audit,
}
use kltn_high_concurrency_co.Order.UseCases.{expire_order, settle_expired}
use kltn_high_concurrency_co.Order.Release.{
  IsFree, release_here, release_each-free, release_each-lost, release_each-answers,
}

module _ (R : Redis schema) (T : Tables) (fresh : OrderId) (now : Millis) where
  abbrev pub expire_order_here : OrderId → Action (R.State × Database T) (Unit {0})
  expire_order_here =
      expire_order (prisma_order_adapter T fresh now R.State) (redis_seat_hold_adapter R)

  abbrev settle_here : ExpireResult → Action (R.State × Database T) (Unit {0})
  settle_here =
      settle_expired (prisma_order_adapter T fresh now R.State) (redis_seat_hold_adapter R)

  audit-orders :
      (xs : List SeatId) (u : UserId) (d : Database T)
      → (expire_seat_lock_audit T fresh now xs u d).1.orders ≡ d.orders
  unfolding expire_seat_lock_audit
  audit-orders [] u d = refl
  audit-orders (x ∷ xs) u d = ground (
    arith,
    Option-cases (T.locks.update_many (expirable_lock (x ∷ xs) u) (expire_lock now) d.locks),
  )

  settle-orders :
      (r : ExpireResult) (s : R.State) (d : Database T)
      → (settle_here r (s, d)).1.1.orders ≡ d.orders
  unfolding settle_expired
  settle-orders r s d = elim (Bool-cases r.changed) [
    | inr early ↦ rw (early, settle_expired) refl
    | inl late ↦
        let (answers, same) =
          release_each-answers R T fresh now r.event_id r.user_id r.seat_ids s d in
        let s' = (release_here R T fresh now r.event_id r.user_id r.seat_ids (s, d)).1.0 in
        rw (late, settle_expired, answers, same) (audit-orders r.seat_ids r.user_id d)
  ]

  settle-holds :
      (r : ExpireResult) (s : R.State) (d : Database T)
      → r.changed ≡ true
      → (settle_here r (s, d)).1.0
        ≡ (release_here R T fresh now r.event_id r.user_id r.seat_ids (s, d)).1.0
  unfolding settle_expired
  settle-holds r s d h =
      rw
        (
          h,
          settle_expired,
          (release_each-answers R T fresh now r.event_id r.user_id r.seat_ids s d).0,
        )
        refl

  settle-unchanged :
      (r : ExpireResult) (s : R.State) (d : Database T)
      → r.changed ≡ false
      → settle_here r (s, d) ≡ (ok tt, (s, d))
  unfolding settle_expired
  settle-unchanged r s d h = rw (h, settle_expired) refl

  settle-free :
      (r : ExpireResult) (s : R.State) (d : Database T)
      → IsFree (R.view s)
      → R.view (settle_here r (s, d)).1.0 ≡ R.view s
  settle-free r s d free = elim (Bool-cases r.changed) [
    | inr early ↦ rw (settle-unchanged r s d early) refl
    | inl late ↦
        rw (settle-holds r s d late)
          (release_each-free R T fresh now r.event_id r.user_id r.seat_ids s d free)
  ]

  changed_none :
      (oid : OrderId) (d : Database T) (n : ℕ) (o : T.orders.State)
      → n ≡ 0
      → (expire_result T fresh now n (T.orders.find_first (λ row. row.id == oid) o)).changed ≡ false
  changed_none oid d n o h = elim (Option-cases (T.orders.find_first (λ row. row.id == oid) o)) [
    | inl e ↦ rw e refl
    | inr (row, e) ↦ rw (e, h) refl
  ]

  -- what a run does, by what the update of the order answers
  ran :
      (oid : OrderId) (s : R.State) (d : Database T) (n : ℕ) (o : T.orders.State)
      → T.orders.update_many (pending_order oid) expire_row d.orders ≡ some (n, o)
      → expire_order_here oid (s, d)
        ≡ settle_here
            (expire_result T fresh now n (T.orders.find_first (λ row. row.id == oid) o))
            (s, record d { orders = o })
  unfolding expire_order mark_expired_if_pending
  ran oid s d n o e = rw (e, mark_expired_if_pending) refl

  -- A run whose update is rejected throws and changes nothing; every other run turns exactly the rows
  -- of the order that are pending into expired ones and leaves all other rows of orders alone.
  pub expire_order-rows :
      (oid : OrderId) (s : R.State) (d : Database T)
      → (expire_order_here oid (s, d) ≡ (throw error, (s, d)))
        ⊎ (T.orders.rows (expire_order_here oid (s, d)).1.1.orders
            ≡ revise (pending_order oid) expire_row (T.orders.rows d.orders))
  unfolding expire_order mark_expired_if_pending
  expire_order-rows oid s d =
      elim (Option-cases (T.orders.update_many (pending_order oid) expire_row d.orders)) [
        | inl e ↦ inl (rw (e, mark_expired_if_pending) refl)
        | inr ((n, o), e) ↦
            let r = expire_result T fresh now n (T.orders.find_first (λ row. row.id == oid) o) in
            inr (
              ap (λ w. T.orders.rows w.1.1.orders) (ran oid s d n o e)
              ∙ ap T.orders.rows (settle-orders r s (record d { orders = o }))
              ∙ (T.orders.update_many_done (pending_order oid) expire_row d.orders o n e).0)
      ]

  -- The timeout of an order that is not pending (paid, cancelled, expired or unknown) leaves the holds,
  -- the rows of the orders and the audit of locks as they are.
  pub expire_order-settled :
      (oid : OrderId) (s : R.State) (d : Database T)
      → any (pending_order oid) (T.orders.rows d.orders) ≡ false
      → ((expire_order_here oid (s, d)).1.0 ≡ s)
        × (T.orders.rows (expire_order_here oid (s, d)).1.1.orders ≡ T.orders.rows d.orders)
        × ((expire_order_here oid (s, d)).1.1.locks ≡ d.locks)
  unfolding expire_order mark_expired_if_pending
  expire_order-settled oid s d none_fits =
      elim (Option-cases (T.orders.update_many (pending_order oid) expire_row d.orders)) [
        | inl e ↦ rw (e, mark_expired_if_pending) (refl, refl, refl)
        | inr ((n, o), e) ↦
            let (rows, counted) =
              T.orders.update_many_done (pending_order oid) expire_row d.orders o n e in
            let unmarked =
              changed_none oid d n o
                (counted ∙ count_none (pending_order oid) (T.orders.rows d.orders) none_fits) in
            rw
              (
                ran oid s d n o e,
                settle-unchanged
                    (expire_result T fresh now n (T.orders.find_first (λ row. row.id == oid) o)) s
                    (record d { orders = o }) unmarked,
              )
              (
                refl,
                rows
                    ∙ revise_none (pending_order oid) expire_row (T.orders.rows d.orders) none_fits,
                refl,
              )
      ]

  -- After a run whose update is not rejected, a second delivery of the message, whatever has
  -- happened to the holds in between, leaves holds, rows of orders and audit as they are.
  pub expire_order-again :
      (oid : OrderId) (s s' : R.State) (d : Database T) (n : ℕ) (o : T.orders.State)
      → T.orders.update_many (pending_order oid) expire_row d.orders ≡ some (n, o)
      → let d' = (expire_order_here oid (s, d)).1.1 in
        ((expire_order_here oid (s', d')).1.0 ≡ s')
        × (T.orders.rows (expire_order_here oid (s', d')).1.1.orders ≡ T.orders.rows d'.orders)
        × ((expire_order_here oid (s', d')).1.1.locks ≡ d'.locks)
  expire_order-again oid s s' d n o e =
      let r = expire_result T fresh now n (T.orders.find_first (λ row. row.id == oid) o) in
      let d' = (expire_order_here oid (s, d)).1.1 in
      let rows : T.orders.rows d'.orders
          ≡ revise (pending_order oid) expire_row (T.orders.rows d.orders) =
        ap (λ w. T.orders.rows w.1.1.orders) (ran oid s d n o e)
        ∙ ap T.orders.rows (settle-orders r s (record d { orders = o }))
        ∙ (T.orders.update_many_done (pending_order oid) expire_row d.orders o n e).0 in
      expire_order-settled oid s' d' (
        ap (any (pending_order oid)) rows
        ∙ any-revise (pending_order oid) expire_row (T.orders.rows d.orders) (λ row. ground arith))

  -- If the update of a run changes one row and the order is found afterwards, then its user holds
  -- none of the seats of its items when the run is over, on every server and database.
  pub expire_order-frees :
      (oid : OrderId) (s : R.State) (d : Database T) (o : T.orders.State) (row : OrderRow)
      → T.orders.update_many (pending_order oid) expire_row d.orders ≡ some (1, o)
      → T.orders.find_first (λ r. r.id == oid) o ≡ some row
      → All
          (λ x. owns row.event_id row.user_id (R.view (expire_order_here oid (s, d)).1.0) x ≡ false)
          (seat_ids_of row.order_items)
  expire_order-frees oid s d o row e found =
      let r = expire_result T fresh now 1 (some row) in
      rw (ran oid s d 1 o e, found, settle-holds r s (record d { orders = o }) refl)
        (release_each-lost R T fresh now row.event_id row.user_id (seat_ids_of row.order_items) s
          (record d { orders = o }))

  -- The timeout that comes when the locks have run out changes nothing that clients of the server
  -- can observe: the seats stay in the sets that count towards the limit of the user.
  pub expire_order-late :
      (oid : OrderId) (n : ℕ) (s : R.State) (d : Database T)
      → RunsOutWithin n (R.view s)
      → R.view (expire_order_here oid (R.elapse n s, d)).1.0 ≡ R.view (R.elapse n s)
  unfolding expire_order mark_expired_if_pending
  expire_order-late oid n s d out =
      elim (Option-cases (T.orders.update_many (pending_order oid) expire_row d.orders)) [
        | inl e ↦ rw (e, mark_expired_if_pending) refl
        | inr ((k, o), e) ↦ rw (ran oid (R.elapse n s) d k o e) (
            settle-free (expire_result T fresh now k (T.orders.find_first (λ row. row.id == oid) o))
              (R.elapse n s) (record d { orders = o }) (λ e' x. gone R n s e' x out))
      ]
