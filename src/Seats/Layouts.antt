-- ===== src/Seats/Layouts.antt =====
-- What a change of a layout adds, and what a layout shows.
use mathlib.Core.List.Perm
use kltn_high_concurrency_co.Prelude.{
  ◌≡◌, refl, ◌∙◌, ap, inl, inr, Bool, true, List, [], ◌∷◌, ◌++◌, some, length, arith, ◌==◌, find,
  revise, HasKeys, Perm, IsSorted, subst, Bool-cases,
}
use kltn_high_concurrency_co.Common.Ids.{UserId, EventId}
use kltn_high_concurrency_co.Common.Exception.{ok, bad_request}
use kltn_high_concurrency_co.Catalog.{
  TicketModelType, seat_map, EventRow, by_event_id, owned_by, plain, assert_event_owner_and_status,
}
use kltn_high_concurrency_co.Catalog.Owned.{find_owned_event-found}
use kltn_high_concurrency_co.Seats.Labels.{SeatRow, SeatMapConfigDto, all_seats, by_row_and_number}
use kltn_high_concurrency_co.Seats.Ownership.{type_key}
use kltn_high_concurrency_co.Seats.Creation.{seats_of-AreSeatsOf, create_seat_map-Answer}
use kltn_high_concurrency_co.Seats.{
  Tables, seats_of, ZoneConfigDto, UpdateSeatMapDto, seat_layout, entries, type_ids, set_model,
  are_types_of, create_seat_map, add_sections, add_zones, update_layout, get_layout,
}

-- a row that is there and is changed is found changed
find-changed :
    (id : EventId) (other : EventRow → Bool) (model : TicketModelType) (x : EventRow)
    (rows : List EventRow)
    → ((y : EventRow) → other y ≡ true → by_event_id id y ≡ true)
    → find other rows ≡ some x
    → (y : EventRow) × (find (by_event_id id) (revise (by_event_id id) (set_model model) rows)
        ≡ some (set_model model y))
unfolding find revise
find-changed id other model x [] fits h = absurd (ground (arith, h))
find-changed id other model x (y ∷ rows) fits h = elim (Bool-cases (y.id == id)) [
  | inl same ↦ (y, rw (find, revise, same) (rw (find, same) refl))
  | inr different ↦
      let (z, found) =
        find-changed id other model x rows fits (ground (arith, h, different, fits y)) in
      (z, rw (find, revise, different) (rw (find, different) found))
]

module _ (T : Tables) where
  -- What `getLayout` shows right after `createSeatMap` has answered are the seats of the answer, in the order of rows
  -- and numbers as well, if ids of types are distinct.
  pub get_layout-create_seat_map :
      (u : UserId) (id : EventId) (sections : List SeatMapConfigDto) (p : T.profiles.State)
      (t : T.types.State) (e : T.events.State) (s : T.seats.State) (z : T.zones.State)
      (seats : List SeatRow)
      → HasKeys type_key (T.types.rows t)
      → (create_seat_map T u id sections p t (e, s)).0 ≡ ok seats
      → (shown : List SeatRow) × (get_layout T id
            (create_seat_map T u id sections p t (e, s)).1.0
            (create_seat_map T u id sections p t (e, s)).1.1
            z
          ≡ ok (seat_layout shown))
        × Perm shown seats
        × IsSorted (by_row_and_number T.collation) shown
        × IsSorted (by_row_and_number T.collation) seats
  unfolding get_layout
  get_layout-create_seat_map u id sections p t e s z seats keys answered =
      elim (create_seat_map-Answer T u id sections p t e s keys) [
        | inl (bad, failed, why) ↦ absurd (ground (arith, answered, failed))
        | inr ((x, mine, early, unset), types, (made, answer, (all, sorted)), changed, added) ↦
            let (e', s') = (create_seat_map T u id sections p t (e, s)).1 in
            let (profile, there) = find_owned_event-found T.profiles T.events u id p e x mine in
            let (y, found) =
              find-changed id (owned_by T.profiles T.events profile.id id) seat_map x
                (T.events.rows e) (λ row fits. ground (arith, fits)) there in
            let known : T.events.find_first (by_event_id id) e' ≡ some (set_model seat_map y) =
              T.events.find_first_lem (by_event_id id) e'
              ∙ ap (find (by_event_id id)) changed
              ∙ found in
            let same : made ≡ seats = ground (arith, answer, answered) in
            let (shown, in_order) =
              seats_of-AreSeatsOf T id (T.seats.rows s ++ all_seats id sections) s' added in
            (
              seats_of T id s',
              rw (get_layout, known) refl,
              subst (Perm (seats_of T id s')) same (Perm.trans shown (Perm.symm all)),
              in_order,
              subst (IsSorted (by_row_and_number T.collation)) same sorted,
            )
      ]

  -- A request that adds sections and zones to a SEAT_MAP event of the user, with types of the event, throws 400
  -- after the seats are written: it is not one transaction.
  pub update_layout-half :
      (u : UserId) (id : EventId) (dto : UpdateSeatMapDto) (p : T.profiles.State)
      (e : T.events.State) (t : T.types.State) (s s' : T.seats.State) (z : T.zones.State)
      (x : EventRow) (section : SeatMapConfigDto) (sections : List SeatMapConfigDto)
      (first : ZoneConfigDto) (zones : List ZoneConfigDto)
      → assert_event_owner_and_status T.profiles T.events u id p e ≡ ok x
      → x.ticket_model ≡ some seat_map
      → entries dto.add_sections ≡ section ∷ sections
      → entries dto.add_zones ≡ first ∷ zones
      → are_types_of T id (type_ids (section ∷ sections)) t ≡ true
      → T.seats.create_many (all_seats id (section ∷ sections)) s ≡ some s'
      → ((update_layout T u id dto p e t (s, z)).0 ≡ plain bad_request)
        × (T.seats.rows (update_layout T u id dto p e t (s, z)).1.0
            ≡ T.seats.rows s ++ all_seats id (section ∷ sections))
        × (T.zones.rows (update_layout T u id dto p e t (s, z)).1.1 ≡ T.zones.rows z)
  unfolding update_layout add_sections add_zones
  update_layout-half u id dto p e t s s' z x section sections first zones owned model some_sections
        some_zones types made =
      let seats = all_seats id (section ∷ sections) in
      let full : add_sections T id seat_map (section ∷ sections) t s
          ≡ (ok (some (length seats)), s') =
        rw (add_sections, types, made) refl in
      let added : add_sections T id seat_map (entries dto.add_sections) t s
          ≡ (ok (some (length seats)), s') =
        ap (λ xs. add_sections T id seat_map xs t s) some_sections ∙ full in
      let zoned : add_zones T id seat_map (entries dto.add_zones) z ≡ (plain bad_request, z) =
        ap (λ xs. add_zones T id seat_map xs z) some_zones in
      let step : update_layout T u id dto p e t (s, z) ≡ (plain bad_request, (s', z)) =
        rw (update_layout, owned, model, added)
          (rw (zoned) (λ i. (plain bad_request, (ap (λ o. o.1) added i, ap (λ o. o.1) zoned i)))) in
      rw (step) (refl, T.seats.create_many_done seats s s' made, refl)
