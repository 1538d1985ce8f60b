-- ===== src/Tests/Layouts.antt =====
-- Seat maps at concrete inputs.
use kltn_high_concurrency_co.Prelude.{
  ◌≡◌, ◌≢◌, ◌⊎◌, ◌++◌, refl, true, none, some, List, [], ◌∷◌, HasKeys, any, select, revise, find,
  count, mem, Text, Bool, false, inl, inr, ltb, leb, ◌==◌, if◌then◌else◌, Bool-cases, IsOrder,
  IsSorted, sort, insert_sorted, Perm, to_decimal, digits, IsIn, arith,
}
use kltn_high_concurrency_co.Common.Exception.{Exception, ok, throw, bad_request}
use kltn_high_concurrency_co.Prisma.Reference.{reference}
use kltn_high_concurrency_co.Prisma.Single.{update_one}
use kltn_high_concurrency_co.Catalog.{
  seat_map, ProfileRow, EventRow, TicketTypeRow, ZoneRow, same_user, same_event_id, same_type_id,
  same_zone_id, plain, find_owned_event, assert_event_owner_and_status,
}
use kltn_high_concurrency_co.Seats.Labels.{
  SeatRow, SeatMapConfigDto, section_seats, all_seats, by_row_and_number,
}
use kltn_high_concurrency_co.Seats.{
  Tables, any_seat, ZoneConfigDto, UpdateSeatMapDto, seat_layout, unique, are_types_of, transaction,
  create_seat_map, update_layout, get_layout,
}
use kltn_high_concurrency_co.Seats.Numbering.{label-clash}
use kltn_high_concurrency_co.Seats.Ownership.{type_key}
use kltn_high_concurrency_co.Seats.Creation.{IsBlocked, IsMade, create_seat_map-Answer}
use kltn_high_concurrency_co.Seats.Layouts.{get_layout-create_seat_map, update_layout-half}
use kltn_high_concurrency_co.Tests.Organizers.{profile, event, standard}

-- texts in the order of their code units
abbrev at_most : Text → Text → Bool
at_most [] ys = true
at_most (x ∷ xs) [] = false
at_most (x ∷ xs) (y ∷ ys) =
    let rest = at_most xs ys in if ltb x y then true else (if x == y then rest else false)

at_most_total : (xs ys : Text) → (at_most xs ys ≡ true) ⊎ (at_most ys xs ≡ true)
at_most_total [] ys = inl refl
at_most_total (x ∷ xs) [] = inr refl
at_most_total (x ∷ xs) (y ∷ ys) = elim (at_most_total xs ys) [
  | inl first ↦ elim (Bool-cases (leb x y)) [
    | inl below ↦ inl (ground (arith, below, first))
    | inr above ↦ inr (ground (arith, above))
  ]
  | inr second ↦ elim (Bool-cases (leb y x)) [
    | inl above ↦ inr (ground (arith, above, second))
    | inr below ↦ inl (ground (arith, below))
  ]
]

at_most_trans :
    (xs ys zs : Text) → at_most xs ys ≡ true → at_most ys zs ≡ true → at_most xs zs ≡ true
at_most_trans [] ys zs f g = refl
at_most_trans (x ∷ xs) [] zs f g = absurd (ground (arith, f))
at_most_trans (x ∷ xs) (y ∷ ys) [] f g = absurd (ground (arith, g))
at_most_trans (x ∷ xs) (y ∷ ys) (z ∷ zs) f g = ground (arith, f, g, at_most_trans xs ys zs)

at_most-IsOrder : IsOrder at_most
at_most-IsOrder = record { total = at_most_total; trans = at_most_trans }

abbrev tables : Tables
tables = record {
  profiles = reference ProfileRow same_user;
  events = reference EventRow same_event_id;
  types = reference TicketTypeRow same_type_id;
  seats = reference SeatRow any_seat;
  zones = reference ZoneRow same_zone_id;
  collation = record { at_most = at_most; order = at_most-IsOrder };
}

abbrev known : List ProfileRow
known = profile ∷ []

abbrev planned : List EventRow
planned = event ∷ []

abbrev ticket_types : List TicketTypeRow
ticket_types = standard ∷ []

abbrev no_seats : List SeatRow
no_seats = []

abbrev no_zones : List ZoneRow
no_zones = []

abbrev balcony : SeatMapConfigDto
balcony = record { rows = 1; seats_per_row = 2; row_prefix = none; ticket_type_id = 70 }

abbrev balcony_only : List SeatMapConfigDto
balcony_only = balcony ∷ []

types-HasKeys : HasKeys type_key ticket_types
unfolding any
types-HasKeys = (refl, tt)

create_seat_map-Answer_example :
    ((y : Exception) × (create_seat_map tables 5 1 balcony_only known ticket_types
          (planned, no_seats)
        ≡ (throw y, (planned, no_seats)))
      × IsBlocked tables 5 1 balcony_only known ticket_types planned no_seats y)
    ⊎ IsMade tables 5 1 balcony_only known ticket_types planned no_seats
create_seat_map-Answer_example =
    create_seat_map-Answer tables 5 1 balcony_only known ticket_types planned no_seats types-HasKeys

balcony_made :
    (create_seat_map tables 5 1 balcony_only known ticket_types (planned, no_seats)).0
    ≡ ok (all_seats 1 balcony_only)
unfolding create_seat_map transaction update_one assert_event_owner_and_status find_owned_event
    are_types_of unique mem find count select revise all_seats sort insert_sorted to_decimal digits
balcony_made = refl

get_layout-create_seat_map_example :
    (shown : List SeatRow) × (get_layout tables 1
        (create_seat_map tables 5 1 balcony_only known ticket_types (planned, no_seats)).1.0
        (create_seat_map tables 5 1 balcony_only known ticket_types (planned, no_seats)).1.1
        no_zones
      ≡ ok (seat_layout shown))
    × Perm shown (all_seats 1 balcony_only)
    × IsSorted (by_row_and_number tables.collation) shown
    × IsSorted (by_row_and_number tables.collation) (all_seats 1 balcony_only)
get_layout-create_seat_map_example =
    get_layout-create_seat_map tables 5 1 balcony_only known ticket_types planned no_seats no_zones
      (all_seats 1 balcony_only) types-HasKeys balcony_made

abbrev stalls : SeatMapConfigDto
stalls = record { rows = 12; seats_per_row = 20; row_prefix = some (65 ∷ []); ticket_type_id = 70 }

label-clash_example :
    (x : SeatRow) × (y : SeatRow) × IsIn x (section_seats 1 stalls)
    × IsIn y (section_seats 1 stalls)
    × (x.row ≢ y.row)
    × (x.label ≡ y.label)
label-clash_example = label-clash 1 stalls 65 [] refl (omega arith) (omega arith)

abbrev seated : EventRow
seated = record event { ticket_model = some seat_map }

abbrev lawn : ZoneConfigDto
lawn = record { id = 80; name = "Lawn"; capacity = 100; ticket_type_id = none }

abbrev both : UpdateSeatMapDto
both = record { add_sections = some (balcony ∷ []); add_zones = some (lawn ∷ []) }

seated_owned :
    assert_event_owner_and_status tables.profiles tables.events 5 1 known (seated ∷ []) ≡ ok seated
unfolding assert_event_owner_and_status find_owned_event find
seated_owned = refl

types_known : are_types_of tables 1 (70 ∷ []) ticket_types ≡ true
unfolding are_types_of count mem
types_known = refl

update_layout-half_example :
    ((update_layout tables 5 1 both known (seated ∷ []) ticket_types (no_seats, no_zones)).0
      ≡ plain bad_request)
    × ((update_layout tables 5 1 both known (seated ∷ []) ticket_types (no_seats, no_zones)).1.0
        ≡ no_seats ++ all_seats 1 balcony_only)
    × ((update_layout tables 5 1 both known (seated ∷ []) ticket_types (no_seats, no_zones)).1.1
        ≡ no_zones)
unfolding unique select
update_layout-half_example =
    update_layout-half tables 5 1 both known (seated ∷ []) ticket_types no_seats
      (no_seats ++ all_seats 1 balcony_only) no_zones seated balcony [] lawn [] seated_owned refl
      refl refl types_known refl
