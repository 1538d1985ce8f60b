-- ===== src/Seats/Labels.antt =====
-- seats/seats.service.ts: the seats that a section of a seat map stands for, and their labels. A text is
-- the list of its UTF-16 code units.
use kltn_high_concurrency_co.Prelude.{
  ℕ, zero, suc, ◌+◌, ◌%◌, List, [], ◌∷◌, ◌++◌, Option, none, some, Text, to_decimal, Bool, true,
  false, ◌≡◌, ◌⊎◌, inl, inr, IsOrder, Bool-cases, if◌then◌else◌, arith,
}
use kltn_high_concurrency_co.Common.Ids.{EventId, RowId}

pub data SeatStatus : Type 0 where
  available locked sold : SeatStatus

-- A seat without the id that the database draws.
pub record SeatRow : Type 0 where
  pub event_id : EventId
  pub ticket_type_id : RowId
  pub row : Text
  pub number : Text
  pub label : Text
  pub status : SeatStatus

pub record SeatMapConfigDto : Type 0 where
  pub rows : ℕ
  pub seats_per_row : ℕ
  pub row_prefix : Option Text
  pub ticket_type_id : RowId

-- String.fromCharCode
abbrev pub from_char_code : ℕ → Text
from_char_code n = (n % 65536) ∷ []

-- an empty prefix is none: `section.rowPrefix ?? ''`
abbrev pub row_label : Option Text → ℕ → Text
row_label none row = from_char_code (64 + row)
row_label (some []) row = from_char_code (64 + row)
row_label (some (c ∷ cs)) row = (c ∷ cs) ++ to_decimal row

module _ (event_id : EventId) where
  abbrev pub seat_of : RowId → Text → ℕ → SeatRow
  seat_of ticket_type_id label number = record {
    event_id = event_id;
    ticket_type_id = ticket_type_id;
    row = label;
    number = to_decimal number;
    label = label ++ to_decimal number;
    status = available;
  }

  -- the seats of a row with numbers up to `n`
  abbrev pub row_seats : RowId → Text → ℕ → List SeatRow
  row_seats ticket_type_id label zero = []
  row_seats ticket_type_id label (suc n) =
      row_seats ticket_type_id label n ++ seat_of ticket_type_id label (suc n) ∷ []

  -- the first `n` rows of a section
  abbrev pub section_rows : SeatMapConfigDto → ℕ → List SeatRow
  section_rows section zero = []
  section_rows section (suc n) =
      section_rows section n
      ++ row_seats section.ticket_type_id (row_label section.row_prefix (suc n))
          section.seats_per_row

  abbrev pub section_seats : SeatMapConfigDto → List SeatRow
  section_seats section = section_rows section section.rows

  -- `allSeats`
  unfoldable pub all_seats : List SeatMapConfigDto → List SeatRow
  all_seats [] = []
  all_seats (section ∷ sections) = section_seats section ++ all_seats sections

-- How the database orders texts.
pub record Collation : Type 0 where
  pub at_most : Text → Text → Bool
  pub order : IsOrder at_most

-- orderBy: [{ row: 'asc' }, { number: 'asc' }]
module _ (c : Collation) where
  abbrev pub by_row_and_number : SeatRow → SeatRow → Bool
  by_row_and_number x y =
      if c.at_most x.row y.row
      then (if c.at_most y.row x.row then c.at_most x.number y.number else true)
      else false

  by_row_and_number_total :
      (x y : SeatRow) → (by_row_and_number x y ≡ true) ⊎ (by_row_and_number y x ≡ true)
  by_row_and_number_total x y = elim (Bool-cases (c.at_most x.row y.row)) [
    | inr above ↦ elim (c.order.total x.row y.row) [
      | inl below ↦ absurd (ground (arith, above, below))
      | inr below ↦ inr (ground (arith, above, below))
    ]
    | inl below ↦ elim (Bool-cases (c.at_most y.row x.row)) [
      | inr strict ↦ inl (ground (arith, below, strict))
      | inl same ↦ elim (c.order.total x.number y.number) [
        | inl first ↦ inl (ground (arith, below, same, first))
        | inr second ↦ inr (ground (arith, below, same, second))
      ]
    ]
  ]

  by_row_and_number_trans :
      (x y z : SeatRow)
      → by_row_and_number x y ≡ true
      → by_row_and_number y z ≡ true
      → by_row_and_number x z ≡ true
  by_row_and_number_trans x y z f g =
      let xy : c.at_most x.row y.row ≡ true = ground (arith, f) in
      let yz : c.at_most y.row z.row ≡ true = ground (arith, g) in
      let xz = c.order.trans x.row y.row z.row xy yz in
      elim (Bool-cases (c.at_most z.row x.row)) [
        | inr strict ↦ ground (arith, xz, strict)
        | inl same ↦
            let yx = c.order.trans y.row z.row x.row yz same in
            let zy = c.order.trans z.row x.row y.row same xy in
            let first : c.at_most x.number y.number ≡ true = ground (arith, f, xy, yx) in
            let second : c.at_most y.number z.number ≡ true = ground (arith, g, yz, zy) in
            let whole = c.order.trans x.number y.number z.number first second in
            ground (arith, xz, same, whole)
      ]

  pub by_row_and_number-IsOrder : IsOrder by_row_and_number
  by_row_and_number-IsOrder = record {
    total = by_row_and_number_total;
    trans = by_row_and_number_trans;
  }
