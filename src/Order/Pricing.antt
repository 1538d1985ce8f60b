-- ===== src/Order/Pricing.antt =====
-- The items of an order are the seats of the request at the prices of the database.
use kltn_high_concurrency_co.Prelude.{ℕ, ◌≡◌, refl, Option, none, some, List, [], ◌∷◌, map, arith}
use kltn_high_concurrency_co.Common.Ids.{SeatId}
use kltn_high_concurrency_co.Common.Exception.{Result, ok, throw}
use kltn_high_concurrency_co.Order.Ports.{SeatPricing}
use kltn_high_concurrency_co.Order.Repository.{
  SeatRow, get_by_id, price_row, price_seat, cons_result, price_seats, item_row, seat_ids_of,
}

-- Seat by seat: the item has the seat's id, and the type and the price of the row with that id.
abbrev pub IsPriced : List SeatRow → List SeatId → List SeatPricing → Type 0
IsPriced rows [] [] = Unit
IsPriced rows (x ∷ xs) [] = ⊥
IsPriced rows [] (i ∷ items) = ⊥
IsPriced rows (x ∷ xs) (i ∷ items) =
    (i.seat_id ≡ x)
    × ((row : SeatRow) × (get_by_id x rows ≡ some row)
        × (row.ticket_type_id ≡ some i.ticket_type_id)
        × (row.price ≡ some i.unit_price))
    × IsPriced rows xs items

price_row-cases :
    (x : SeatId) (type price : Option ℕ) (i : SeatPricing)
    → price_row x type price ≡ ok i
    → (i.seat_id ≡ x) × (type ≡ some i.ticket_type_id) × (price ≡ some i.unit_price)
price_row-cases x none price i e = ground arith
price_row-cases x (some t) none i e = ground arith
price_row-cases x (some t) (some p) i e = ground arith

price_seat-cases :
    (x : SeatId) (found : Option SeatRow) (i : SeatPricing)
    → price_seat x found ≡ ok i
    → (i.seat_id ≡ x)
      × ((row : SeatRow) × (found ≡ some row)
          × (row.ticket_type_id ≡ some i.ticket_type_id)
          × (row.price ≡ some i.unit_price))
price_seat-cases x none i e = ground arith
price_seat-cases x (some row) i e =
    let (a, b, c) = price_row-cases x row.ticket_type_id row.price i e in (a, (row, refl, b, c))

cons_result-cases :
    (a : Result SeatPricing) (as' : Result (List SeatPricing)) (items : List SeatPricing)
    → cons_result a as' ≡ ok items
    → (i : SeatPricing) × (rest : List SeatPricing) × (a ≡ ok i)
      × (as' ≡ ok rest)
      × (items ≡ i ∷ rest)
cons_result-cases (ok a) (ok as') items e = (a, as', refl, refl, ground arith)
cons_result-cases (ok a) (throw err) items e = ground arith
cons_result-cases (throw err) r items e = ground arith

-- Pricing that succeeds gives an item for each seat of the request, in their order, with the ticket type and
-- the price that the database has for the seat.
pub price_seats-IsPriced :
    (rows : List SeatRow) (xs : List SeatId) (items : List SeatPricing)
    → price_seats rows xs ≡ ok items
    → IsPriced rows xs items
unfolding price_seats
price_seats-IsPriced rows [] [] e = tt
price_seats-IsPriced rows [] (i ∷ items) e = ground arith
price_seats-IsPriced rows (x ∷ xs) items e =
    let (i, rest, a, b, c) =
      cons_result-cases (price_seat x (get_by_id x rows)) (price_seats rows xs) items e in
    let (same, (row, found, type, price)) = price_seat-cases x (get_by_id x rows) i a in
    rw c (same, (row, found, type, price), price_seats-IsPriced rows xs rest b)

-- The seats of an order's items are those that were priced.
pub seats-item_row :
    (rows : List SeatRow) (xs : List SeatId) (items : List SeatPricing)
    → IsPriced rows xs items
    → seat_ids_of (map item_row items) ≡ xs
unfolding seat_ids_of
seats-item_row rows [] [] h = refl
seats-item_row rows (x ∷ xs) (i ∷ items) h = ground (arith, seats-item_row rows xs items h.2)
seats-item_row rows [] (i ∷ items) h = ground arith
seats-item_row rows (x ∷ xs) [] h = ground arith
