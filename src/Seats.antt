-- ===== src/Seats.antt =====
-- seats/seats.service.ts: seat maps and zones of events whose sale is still prepared.
pub mod Labels
pub mod Numbering
pub mod Ownership
pub mod Transaction
pub mod Creation
pub mod Zones
pub mod Layouts
use kltn_high_concurrency_co.Prelude.{
  ℕ, Bool, true, false, not, ◌&&◌, Option, none, some, List, [], ◌∷◌, map, mem, length, ◌==◌,
  if◌then◌else◌, select, String,
}
use kltn_high_concurrency_co.Common.Ids.{UserId, EventId, RowId}
use kltn_high_concurrency_co.Common.Exception.{Result, ok, throw, error, bad_request, not_found}
use kltn_high_concurrency_co.Common.Action.{Action}
use kltn_high_concurrency_co.Prisma.{Table}
use kltn_high_concurrency_co.Prisma.Single.{update_one}
use kltn_high_concurrency_co.Catalog.{
  TicketModelType, seat_map, zone, ProfileRow, EventRow, TicketTypeRow, ZoneRow, same_user,
  same_event_id, same_type_id, same_zone_id, by_event_id, given, plain,
  assert_event_owner_and_status,
}
use Labels.{SeatRow, SeatMapConfigDto, all_seats, Collation, by_row_and_number}

-- The table of seats has no constraint on what is modelled of a row.
abbrev pub any_seat : SeatRow → SeatRow → Bool
any_seat r s = false

pub record ZoneConfigDto : Type 0 where
  pub id : RowId
  pub name : String
  pub capacity : ℕ
  pub ticket_type_id : Option RowId

pub record UpdateSeatMapDto : Type 0 where
  pub add_sections : Option (List SeatMapConfigDto)
  pub add_zones : Option (List ZoneConfigDto)

-- `results` of `updateLayout`
pub record LayoutResults : Type 0 where
  pub added_seats : Option ℕ
  pub added_zones : Option ℕ

-- The answer of `getLayout`.
pub data Layout : Type 0 where
  seat_layout : List SeatRow → Layout
  zone_layout : List ZoneRow → Layout
  no_layout : Layout

-- [...new Set(ids)]
unfoldable pub unique : List ℕ → List ℕ
unique [] = []
unique (x ∷ xs) = x ∷ select (λ y. not (y == x)) (unique xs)

abbrev pub type_ids : List SeatMapConfigDto → List RowId
type_ids sections = unique (map (λ section. section.ticket_type_id) sections)

abbrev pub set_model : TicketModelType → EventRow → EventRow
set_model model row = record row { ticket_model = some model }

-- a zone of the request, with the id that the database draws
abbrev pub zone_of : EventId → ZoneConfigDto → ZoneRow
zone_of event_id z = record {
  id = z.id;
  event_id = event_id;
  name = z.name;
  capacity = z.capacity;
  ticket_type_id = z.ticket_type_id;
}

-- `dto.addSections && dto.addSections.length > 0`
abbrev pub entries : {A : Type 0} → Option (List A) → List A
entries none = []
entries (some xs) = xs

abbrev pub of_event : EventId → SeatRow → Bool
of_event event_id seat = seat.event_id == event_id

pub record Tables : Type 1 where
  pub profiles : Table ProfileRow same_user
  pub events : Table EventRow same_event_id
  pub types : Table TicketTypeRow same_type_id
  pub seats : Table SeatRow any_seat
  pub zones : Table ZoneRow same_zone_id
  pub collation : Collation

module _ (T : Tables) where
  -- `assertTicketTypesOwnership`: whether it lets the ids through
  unfoldable pub are_types_of : EventId → List RowId → T.types.State → Bool
  are_types_of event_id ids t =
      T.types.count_rows (λ type. mem type.id ids && type.event_id == event_id) t == length ids

  -- findMany with `orderBy`, of the seats of an event
  abbrev pub seats_of : EventId → T.seats.State → List SeatRow
  seats_of event_id = T.seats.find_sorted (of_event event_id) (by_row_and_number T.collation)

  -- prisma.$transaction over the events and one other table, which it reads at its end: all or nothing
  unfoldable pub transaction :
      {Row : Type 0} {clash : Row → Row → Bool} (X : Table Row clash)
      → EventId
      → TicketModelType
      → List Row
      → (X.State → List Row)
      → Action (T.events.State × X.State) (List Row)
  transaction {Row} X event_id model rows read (e, x) =
      let failed : Result (List Row) × (T.events.State × X.State) = (throw error, (e, x)) in
      let (answer, e') = update_one T.events (by_event_id event_id) (set_model model) e in
      elim answer [
        | throw bad ↦ (throw bad, (e, x))
        | ok row ↦ elim (X.create_many rows x) [
          | none ↦ failed
          | some x' ↦ elim (T.events.commit e') [
            | none ↦ failed
            | some e'' ↦ elim (X.commit x') [
              | none ↦ failed
              | some x'' ↦ (ok (read x'), (e'', x''))
            ]
          ]
        ]
      ]

  unfoldable pub create_seat_map :
      UserId
      → EventId
      → List SeatMapConfigDto
      → T.profiles.State
      → T.types.State
      → Action (T.events.State × T.seats.State) (List SeatRow)
  create_seat_map organizer_id event_id sections p t (e, s) =
      elim (assert_event_owner_and_status T.profiles T.events organizer_id event_id p e) [
        | throw x ↦ (throw x, (e, s))
        | ok event ↦
            if given event.ticket_model
            then (plain bad_request, (e, s))
            else (if are_types_of event_id (type_ids sections) t
                then transaction T.seats event_id seat_map (all_seats event_id sections)
                    (seats_of event_id) (e, s)
                else (plain bad_request, (e, s)))
      ]

  unfoldable pub create_zones :
      UserId
      → EventId
      → List ZoneConfigDto
      → T.profiles.State
      → Action (T.events.State × T.zones.State) (List ZoneRow)
  create_zones organizer_id event_id zones p (e, z) =
      elim (assert_event_owner_and_status T.profiles T.events organizer_id event_id p e) [
        | throw x ↦ (throw x, (e, z))
        | ok event ↦
            if given event.ticket_model
            then (plain bad_request, (e, z))
            else transaction T.zones event_id zone (map (zone_of event_id) zones)
                (T.zones.find_many (λ row. row.event_id == event_id)) (e, z)
      ]

  -- `updateLayout`, the sections; nothing to add is no step
  unfoldable pub add_sections :
      EventId
      → TicketModelType
      → List SeatMapConfigDto
      → T.types.State
      → Action T.seats.State (Option ℕ)
  add_sections event_id model [] t s = (ok none, s)
  add_sections event_id zone (x ∷ xs) t s = (plain bad_request, s)
  add_sections event_id seat_map (x ∷ xs) t s =
      let seats = all_seats event_id (x ∷ xs) in
      if are_types_of event_id (type_ids (x ∷ xs)) t
      then elim (T.seats.create_many seats s) [
        | none ↦ (throw error, s)
        | some s' ↦ (ok (some (length seats)), s')
      ]
      else (plain bad_request, s)

  -- `updateLayout`, the zones
  unfoldable pub add_zones :
      EventId → TicketModelType → List ZoneConfigDto → Action T.zones.State (Option ℕ)
  add_zones event_id model [] z = (ok none, z)
  add_zones event_id seat_map (x ∷ xs) z = (plain bad_request, z)
  add_zones event_id zone (x ∷ xs) z =
      elim (T.zones.create_many (map (zone_of event_id) (x ∷ xs)) z) [
        | none ↦ (throw error, z)
        | some z' ↦ (ok (some (length (x ∷ xs))), z')
      ]

  -- `updateLayout`: what the sections added stays when the zones throw
  unfoldable pub update_layout :
      UserId
      → EventId
      → UpdateSeatMapDto
      → T.profiles.State
      → T.events.State
      → T.types.State
      → Action (T.seats.State × T.zones.State) LayoutResults
  update_layout organizer_id event_id dto p e t (s, z) =
      elim (assert_event_owner_and_status T.profiles T.events organizer_id event_id p e) [
        | throw x ↦ (throw x, (s, z))
        | ok event ↦ elim event.ticket_model [
          | none ↦ (plain bad_request, (s, z))
          | some model ↦
              let (added, s') = add_sections event_id model (entries dto.add_sections) t s in
              elim added [
                | throw x ↦ (throw x, (s', z))
                | ok seats ↦
                    let (zoned, z') = add_zones event_id model (entries dto.add_zones) z in
                    elim zoned [
                      | throw x ↦ (throw x, (s', z'))
                      | ok zones ↦
                          (ok (record { added_seats = seats; added_zones = zones }), (s', z'))
                    ]
              ]
        ]
      ]

  unfoldable pub get_layout :
      EventId → T.events.State → T.seats.State → T.zones.State → Result Layout
  get_layout event_id e s z = elim (T.events.find_first (by_event_id event_id) e) [
    | none ↦ plain not_found
    | some event ↦ elim event.ticket_model [
      | none ↦ ok no_layout
      | some seat_map ↦ ok (seat_layout (seats_of event_id s))
      | some zone ↦ ok (zone_layout (T.zones.find_many (λ row. row.event_id == event_id) z))
    ]
  ]
