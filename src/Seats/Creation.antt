-- ===== src/Seats/Creation.antt =====
-- A seat map of an event is made wholly or not at all, and once.
use kltn_high_concurrency_co.Prelude.{
  ◌≡◌, refl, sym, ◌∙◌, subst, inl, inr, ◌⊎◌, true, false, List, ◌++◌, none, any, revise, select,
  HasKeys, Perm, IsSorted, Bool-cases, All,
}
use kltn_high_concurrency_co.Common.Ids.{UserId, EventId}
use kltn_high_concurrency_co.Common.Exception.{
  Exception, ok, throw, error, http_exception, bad_request, Result-cases,
}
use kltn_high_concurrency_co.Catalog.{
  seat_map, EventRow, by_event_id, given, assert_event_owner_and_status,
}
use kltn_high_concurrency_co.Catalog.Owned.{assert_event_owner_and_status-found}
use kltn_high_concurrency_co.Seats.Labels.{
  SeatRow, SeatMapConfigDto, all_seats, by_row_and_number, by_row_and_number-IsOrder,
}
use kltn_high_concurrency_co.Seats.Ownership.{type_key, is_type, are_types_of-All}
use kltn_high_concurrency_co.Seats.{
  Tables, seats_of, type_ids, set_model, of_event, are_types_of, transaction, create_seat_map,
}
use kltn_high_concurrency_co.Seats.Transaction.{
  IsRolledBack, IsCommitted, transaction-cases, IsOpen,
}

module _ (T : Tables) where
  -- `seats` are those of the event among the rows, in the order of their rows and numbers.
  abbrev pub AreSeatsOf : EventId → List SeatRow → List SeatRow → Type 0
  AreSeatsOf id seats rows =
      Perm seats (select (of_event id) rows) × IsSorted (by_row_and_number T.collation) seats

  pub seats_of-AreSeatsOf :
      (id : EventId) (rows : List SeatRow) (s : T.seats.State)
      → T.seats.rows s ≡ rows
      → AreSeatsOf id (seats_of T id s) rows
  seats_of-AreSeatsOf id rows s same =
      let before = by_row_and_number T.collation in
      (
        subst (λ xs. Perm (seats_of T id s) (select (of_event id) xs)) same
            (T.seats.find_sorted_lem (of_event id) before s),
        T.seats.find_sorted_order (of_event id) before s (by_row_and_number-IsOrder T.collation),
      )

  -- Why a seat map is not made.
  pub data IsBlocked (u : UserId) (id : EventId) (sections : List SeatMapConfigDto)
      (p : T.profiles.State) (t : T.types.State) (e : T.events.State) (s : T.seats.State)
      (y : Exception) : Type 0 where
    not_open :
        assert_event_owner_and_status T.profiles T.events u id p e ≡ throw y
        → IsBlocked u id sections p t e s y
    has_model :
        (x : EventRow)
        → assert_event_owner_and_status T.profiles T.events u id p e ≡ ok x
        → given x.ticket_model ≡ true
        → y ≡ http_exception bad_request none
        → IsBlocked u id sections p t e s y
    strange_type :
        are_types_of T id (type_ids sections) t ≡ false
        → y ≡ http_exception bad_request none
        → IsBlocked u id sections p t e s y
    rolled_back :
        IsRolledBack T T.seats id seat_map (all_seats id sections) e s
        → y ≡ error
        → IsBlocked u id sections p t e s y

  -- The seat map was made: the event was open for it, with ticket types of its own for all sections.
  abbrev pub IsMade :
      UserId
      → EventId
      → List SeatMapConfigDto
      → T.profiles.State
      → T.types.State
      → T.events.State
      → T.seats.State
      → Type 0
  IsMade u id sections p t e s =
      let o = create_seat_map T u id sections p t (e, s) in
      let rows = T.seats.rows s ++ all_seats id sections in
      IsOpen T u id p e
      × All (λ section. any (is_type id section.ticket_type_id) (T.types.rows t) ≡ true) sections
      × ((seats : List SeatRow) × (o.0 ≡ ok seats) × AreSeatsOf id seats rows)
      × (T.events.rows o.1.0 ≡ revise (by_event_id id) (set_model seat_map) (T.events.rows e))
      × (T.seats.rows o.1.1 ≡ rows)

  IsCommitted-IsMade :
      (u : UserId) (id : EventId) (sections : List SeatMapConfigDto) (p : T.profiles.State)
      (t : T.types.State) (e : T.events.State) (s : T.seats.State)
      → IsOpen T u id p e
      → All (λ section. any (is_type id section.ticket_type_id) (T.types.rows t) ≡ true) sections
      → IsCommitted T T.seats id seat_map
          (all_seats id sections)
          (seats_of T id)
          (e, s)
          (create_seat_map T u id sections p t (e, s))
      → IsMade u id sections p t e s
  IsCommitted-IsMade u id sections p t e s opened types ((x', after, answer), changed, added) = (
    opened,
    types,
    (
      seats_of T id x',
      answer,
      seats_of-AreSeatsOf id (T.seats.rows s ++ all_seats id sections) x' after,
    ),
    changed,
    added,
  )

  -- A seat map either is not made, and nothing changes, because the event is not one of the user in the status
  -- DRAFT, PENDING_APPROVAL or REJECTED, because it has a ticket model, because the ticket types are not counted
  -- among those of the event, or because the database rejects a step of the transaction; or all is done: the
  -- event was the user's, with such a status and without a ticket model; the ticket type of each section is one
  -- of the event, if ids of types are distinct; the event becomes a SEAT_MAP, the seats of the sections
  -- come behind the others, and the answer holds the seats of the event, in the order of rows and numbers.
  pub create_seat_map-Answer :
      (u : UserId) (id : EventId) (sections : List SeatMapConfigDto) (p : T.profiles.State)
      (t : T.types.State) (e : T.events.State) (s : T.seats.State)
      → HasKeys type_key (T.types.rows t)
      → ((y : Exception) × (create_seat_map T u id sections p t (e, s) ≡ (throw y, (e, s)))
          × IsBlocked u id sections p t e s y)
        ⊎ IsMade u id sections p t e s
  unfolding create_seat_map
  create_seat_map-Answer u id sections p t e s keys =
      elim (Result-cases (assert_event_owner_and_status T.profiles T.events u id p e)) [
        | inr (bad, refused) ↦ inl (bad, rw (create_seat_map, refused) refl, not_open refused)
        | inl (x, owned) ↦ elim (Bool-cases (given x.ticket_model)) [
          | inl modelled ↦ inl (
            http_exception bad_request none,
            rw (create_seat_map, owned, modelled) refl,
            has_model x owned modelled refl,
          )
          | inr unset ↦ elim (Bool-cases (are_types_of T id (type_ids sections) t)) [
            | inr strange ↦ inl (
              http_exception bad_request none,
              rw (create_seat_map, owned, unset, strange) refl,
              strange_type strange refl,
            )
            | inl types ↦
                let seats = all_seats id sections in
                let (mine, early) =
                  assert_event_owner_and_status-found T.profiles T.events u id p e x owned in
                let same : create_seat_map T u id sections p t (e, s)
                    ≡ transaction T T.seats id seat_map seats (seats_of T id) (e, s) =
                  rw (create_seat_map, owned, unset, types) refl in
                elim (transaction-cases T T.seats id seat_map seats (seats_of T id) e s) [
                  | inl (failed, why) ↦ inl (error, same ∙ failed, rolled_back why refl)
                  | inr committed ↦ inr (
                      IsCommitted-IsMade u id sections p t e s (x, mine, early, unset)
                        (are_types_of-All T id sections t keys types)
                        (subst (IsCommitted T T.seats id seat_map seats (seats_of T id) (e, s))
                          (sym same) committed))
                ]
          ]
        ]
      ]
