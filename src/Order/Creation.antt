-- ===== src/Order/Creation.antt =====
-- What a request for an order leaves in the database.
use kltn_high_concurrency_co.Prelude.{
  ℕ, ◌≡◌, refl, Option, none, some, List, [], ◌∷◌, mem, ◌&&◌, ◌==◌, Option-cases, inl, inr,
}
use kltn_high_concurrency_co.Common.Ids.{SeatId, OrderId, Millis}
use kltn_high_concurrency_co.Common.Exception.{
  Exception, Result, ok, throw, seat_hold_expired_error, Result-cases,
}
use kltn_high_concurrency_co.Redis.{Redis}
use kltn_high_concurrency_co.Messaging.{Broker}
use kltn_high_concurrency_co.SeatLock.Adapter.{schema}
use kltn_high_concurrency_co.SeatHold.Spec.{first_lost, verify_held-refines}
use kltn_high_concurrency_co.Order.Ports.{SeatPricing}
use kltn_high_concurrency_co.Order.Repository.{Tables, Database, price_seats, load_seat_pricing}
use kltn_high_concurrency_co.Order.UseCases.{CreateOrderInput, CreateOrderOutput, create_order}
use kltn_high_concurrency_co.Order.Attempt.{create_order_here, row_of, Outcome, place-Outcome}

module _ (R : Redis schema) (T : Tables) (M : Broker) (fresh : OrderId) (now : Millis)
    (ttl : ℕ) where
  -- The seats of the request with their prices, as the database has them.
  abbrev pub pricing : CreateOrderInput → Database T → Result (List SeatPricing)
  pricing input d =
      price_seats
        (T.seats.find_many (λ r. mem r.id input.seat_ids && r.event_id == input.event_id) d.seats)
        input.seat_ids

  -- The first seat of the request that the user does not hold.
  abbrev pub lost : CreateOrderInput → R.State → Option SeatId
  lost input s = first_lost input.event_id input.user_id (R.view s) input.seat_ids

  -- The three ways that a request can go.
  pub data Answer (input : CreateOrderInput) (s : R.State) (b : M.State) (d d' : Database T)
      (r : Result CreateOrderOutput) : Type 0 where
    not_held :
        (x : SeatId)
        → lost input s ≡ some x
        → d' ≡ d
        → r ≡ throw (seat_hold_expired_error (x ∷ []))
        → Answer input s b d d' r
    not_priceable :
        (err : Exception)
        → lost input s ≡ none
        → pricing input d ≡ throw err
        → d' ≡ d
        → r ≡ throw err
        → Answer input s b d d' r
    tried :
        (items : List SeatPricing)
        → lost input s ≡ none
        → pricing input d ≡ ok items
        → Outcome R T M fresh now ttl input (row_of R T M fresh now ttl input items) s b d d' r
        → Answer input s b d d' r

  -- Every request for an order, on every server, database and broker: the first seat that the user does not hold, or
  -- a seat without a price, refuses it and leaves the database alone; else it is tried with the row of
  -- all its seats. Then either no row has its key and the row is added, and it is answered if the broker
  -- takes its timeout and throws if the broker does not; or the database is unchanged, and the
  -- pending order of the key is answered again, or the request throws because the key is consumed by
  -- an order that is not pending or is gone, because the holds cannot be prolonged, or because the
  -- database rejects the row or the commit.
  pub create_order-Answer :
      (input : CreateOrderInput) (s : R.State) (d : Database T) (b : M.State)
      → Answer input s b d
          (create_order_here R T M fresh now ttl input ((s, d), b)).1.0.1
          (create_order_here R T M fresh now ttl input ((s, d), b)).0
  unfolding create_order load_seat_pricing
  create_order-Answer input s d b =
      let verified = verify_held-refines R input.event_id input.user_id input.seat_ids s in
      elim (Option-cases (lost input s)) [
        | inr (x, gone) ↦ rw (verified, gone) (not_held x gone refl refl)
        | inl held ↦
            rw (verified, held)
              (elim (Result-cases (pricing input d)) [
                | inr (err, priced) ↦ rw priced (not_priceable err held priced refl refl)
                | inl (items, priced) ↦
                    rw priced (
                      tried items held priced (place-Outcome R T M fresh now ttl input items s d b))
              ])
      ]
