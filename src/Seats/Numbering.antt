-- ===== src/Seats/Numbering.antt =====
-- How many seats a section stands for, which they are, and when their labels tell them apart.
use kltn_high_concurrency_co.Prelude.{
  ℕ, zero, suc, ◌+◌, ◌*◌, ◌≤◌, ◌<◌, ◌%◌, ◌≡◌, ◌≢◌, refl, sym, ap, inl, inr, subst, leb, Bool-cases,
  List, [], ◌∷◌, ◌++◌, none, some, arith, length, length-append, Text, to_decimal, digits,
  to_decimal-injective, IsIn, here, IsIn-left, IsIn-right,
}
use kltn_high_concurrency_co.Common.Ids.{EventId, RowId}
use kltn_high_concurrency_co.Seats.Labels.{
  SeatRow, SeatMapConfigDto, row_label, seat_of, row_seats, section_rows, section_seats, all_seats,
}

-- the places of the sections of a request
abbrev pub places : List SeatMapConfigDto → ℕ
places [] = 0
places (section ∷ sections) = section.rows * section.seats_per_row + places sections

suc_mul : (n k : ℕ) → suc n * k ≡ n * k + k
suc_mul n k = omega arith

module _ (event_id : EventId) where
  length-row_seats :
      (type : RowId) (label : Text) (n : ℕ) → length (row_seats event_id type label n) ≡ n
  length-row_seats type label zero = refl
  length-row_seats type label (suc n) = omega (
    arith,
    length-append (row_seats event_id type label n) (seat_of event_id type label (suc n) ∷ []),
    length-row_seats type label n,
  )

  length-section_rows :
      (section : SeatMapConfigDto) (n : ℕ)
      → length (section_rows event_id section n) ≡ n * section.seats_per_row
  length-section_rows section zero = omega arith
  length-section_rows section (suc n) =
      let label = row_label section.row_prefix (suc n) in
      omega (
        arith,
        length-append (section_rows event_id section n)
            (row_seats event_id section.ticket_type_id label section.seats_per_row),
        length-row_seats section.ticket_type_id label section.seats_per_row,
        length-section_rows section n,
        suc_mul n section.seats_per_row,
      )

  -- A request stands for as many seats as its sections have places.
  pub length-all_seats :
      (sections : List SeatMapConfigDto) → length (all_seats event_id sections) ≡ places sections
  unfolding all_seats
  length-all_seats [] = refl
  length-all_seats (section ∷ sections) = omega (
    arith,
    length-append (section_seats event_id section) (all_seats event_id sections),
    length-section_rows section section.rows,
    length-all_seats sections,
  )

  IsIn-row_seats :
      (type : RowId) (label : Text) (n j : ℕ)
      → 1 ≤ j
      → j ≤ n
      → IsIn (seat_of event_id type label j) (row_seats event_id type label n)
  IsIn-row_seats type label zero j one few = absurd (omega (arith, one, few))
  IsIn-row_seats type label (suc n) j one few =
      let last = seat_of event_id type label (suc n) in
      elim (Bool-cases (leb j n)) [
        | inl low ↦
            IsIn-left (seat_of event_id type label j) (row_seats event_id type label n) (last ∷ [])
              (IsIn-row_seats type label n j one (ground (arith, low)))
        | inr top ↦
            let same : j ≡ suc n = ground (arith, top, few) in
            subst
              (λ k. IsIn (seat_of event_id type label k) (row_seats event_id type label (suc n)))
              (sym same) (IsIn-right last (row_seats event_id type label n) (last ∷ []) here)
      ]

  IsIn-section_rows :
      (section : SeatMapConfigDto) (n i j : ℕ)
      → 1 ≤ i
      → i ≤ n
      → 1 ≤ j
      → j ≤ section.seats_per_row
      → IsIn
          (seat_of event_id section.ticket_type_id (row_label section.row_prefix i) j)
          (section_rows event_id section n)
  IsIn-section_rows section zero i j low high one few = absurd (omega (arith, low, high))
  IsIn-section_rows section (suc n) i j low high one few =
      let type = section.ticket_type_id in
      let seat : ℕ → SeatRow = λ k. seat_of event_id type (row_label section.row_prefix k) j in
      let row : ℕ → List SeatRow =
        λ k. row_seats event_id type (row_label section.row_prefix k) section.seats_per_row in
      elim (Bool-cases (leb i n)) [
        | inl below ↦
            IsIn-left (seat i) (section_rows event_id section n) (row (suc n))
              (IsIn-section_rows section n i j low (ground (arith, below)) one few)
        | inr top ↦
            let same : i ≡ suc n = ground (arith, top, high) in
            IsIn-right (seat i) (section_rows event_id section n) (row (suc n)) (
              subst (λ k. IsIn (seat i) (row k)) same
                (IsIn-row_seats type (row_label section.row_prefix i) section.seats_per_row j one
                  few))
      ]

abbrev first : Text → ℕ
first [] = 0
first (c ∷ cs) = c

abbrev rest : Text → Text
rest [] = []
rest (c ∷ cs) = cs

same_row : (i i' : ℕ) → i < 65536 → i' < 65536 → (64 + i) % 65536 ≡ (64 + i') % 65536 → i ≡ i'
same_row i i' few few' e = omega (arith, few, few', e)

ones : (cs : Text) → (cs ++ 49 ∷ []) ++ 49 ∷ 49 ∷ [] ≡ (cs ++ 49 ∷ 49 ∷ []) ++ 49 ∷ []
ones [] = refl
ones (c ∷ cs) = ap (λ ds. c ∷ ds) (ones cs)

one_more : (cs : Text) → cs ++ 49 ∷ [] ≢ cs ++ 49 ∷ 49 ∷ []
one_more cs e =
    omega (arith, ap length e, length-append cs (49 ∷ []), length-append cs (49 ∷ 49 ∷ []))

-- Without a prefix the label of a seat tells its row and its number, up to 65536 rows.
pub label-injective :
    (i i' j j' : ℕ)
    → i < 65536
    → i' < 65536
    → row_label none i ++ to_decimal j ≡ row_label none i' ++ to_decimal j'
    → (i ≡ i') × (j ≡ j')
label-injective i i' j j' few few' e =
    (same_row i i' few few' (ap first e), to_decimal-injective j j' (ap rest e))

-- With a prefix the labels of row 1, seat 11, and of row 11, seat 1, of a section are the same.
pub label-clash :
    (event_id : EventId) (section : SeatMapConfigDto) (c : ℕ) (cs : Text)
    → section.row_prefix ≡ some (c ∷ cs)
    → 11 ≤ section.rows
    → 11 ≤ section.seats_per_row
    → (x : SeatRow) × (y : SeatRow) × IsIn x (section_seats event_id section)
      × IsIn y (section_seats event_id section)
      × (x.row ≢ y.row)
      × (x.label ≡ y.label)
unfolding to_decimal digits
label-clash event_id section c cs prefix rows seats =
    let seat : ℕ → ℕ → SeatRow =
      λ i j. seat_of event_id section.ticket_type_id (row_label section.row_prefix i) j in
    (
      seat 1 11,
      seat 11 1,
      IsIn-section_rows event_id section section.rows 1 11 (omega arith) (omega (arith, rows))
          (omega arith) seats,
      IsIn-section_rows event_id section section.rows 11 1 (omega arith) rows (omega arith)
          (omega (arith, seats)),
      subst (λ o. row_label o 1 ≢ row_label o 11) (sym prefix) (one_more (c ∷ cs)),
      subst (λ o. row_label o 1 ++ to_decimal 11 ≡ row_label o 11 ++ to_decimal 1) (sym prefix)
          (ones (c ∷ cs)),
    )
