-- ===== src/TicketTypes.antt =====
-- ticket-types/ticket-types.service.ts: the ticket types of an event, which only the organizer of the
-- event changes. Prices are counted in cents; texts are kept as they are.
pub mod Guards
use kltn_high_concurrency_co.Prelude.{
  ℕ, Bool, true, false, ◌&&◌, ◌||◌, Option, none, some, List, [], ◌∷◌, ◌==◌, ltb, if◌then◌else◌,
  String,
}
use kltn_high_concurrency_co.Common.Ids.{UserId, EventId, RowId, Millis}
use kltn_high_concurrency_co.Common.Exception.{
  Exception, HttpError, Result, ok, throw, error, http_exception, bad_request, forbidden, not_found,
}
use kltn_high_concurrency_co.Common.Action.{Action}
use kltn_high_concurrency_co.Prisma.{Write, done, p2002, rejected, Table}
use kltn_high_concurrency_co.Catalog.{
  ProfileRow, EventRow, TicketTypeRow, same_user, same_event_id, same_type_id, Field, left_out,
  cleared, set_to, is_given, is_cleared, written, written_or_none, written_time, plain, profile_of,
  assert_event_owner_and_status,
}

pub record CreateTicketTypeDto : Type 0 where
  pub name : String
  pub price : ℕ
  pub quantity : ℕ
  pub sale_start_time : Millis
  pub sale_end_time : Millis
  pub description : Option String

pub record UpdateTicketTypeDto : Type 0 where
  pub name : Field String
  pub price : Field ℕ
  pub quantity : Field ℕ
  pub sale_start_time : Field Millis
  pub sale_end_time : Field Millis
  pub description : Field String

-- a null for a column that must have a value
abbrev pub clears_required : UpdateTicketTypeDto → Bool
clears_required dto = is_cleared dto.name || is_cleared dto.price || is_cleared dto.quantity

-- the fields of the request that are given
abbrev pub patch : UpdateTicketTypeDto → TicketTypeRow → TicketTypeRow
patch dto row = record row {
  name = written dto.name row.name;
  price = written dto.price row.price;
  quantity = written dto.quantity row.quantity;
  sale_start_time = written_time dto.sale_start_time row.sale_start_time;
  sale_end_time = written_time dto.sale_end_time row.sale_end_time;
  description = written_or_none dto.description row.description;
}

abbrev pub hide_row : TicketTypeRow → TicketTypeRow
hide_row row = record row { is_hidden = true }

abbrev pub by_type_id : RowId → TicketTypeRow → Bool
by_type_id id row = row.id == id

-- dto.price !== undefined && ticketType.sold > 0
abbrev pub price_locked : Field ℕ → ℕ → Bool
price_locked price sold = is_given price && ltb 0 sold

-- dto.quantity !== undefined && dto.quantity < ticketType.sold, where null is compared as 0
abbrev pub below_sold : Field ℕ → ℕ → Bool
below_sold left_out sold = false
below_sold cleared sold = ltb 0 sold
below_sold (set_to quantity) sold = ltb quantity sold

pub record Tables : Type 1 where
  pub profiles : Table ProfileRow same_user
  pub events : Table EventRow same_event_id
  pub types : Table TicketTypeRow same_type_id

-- The tables that the service only reads.
pub record Setting (T : Tables) : Type 0 where
  pub profiles : T.profiles.State
  pub events : T.events.State

module _ (T : Tables) (r : Setting T) where
  -- `where: { id, event: { organizerId } }`
  abbrev pub owned_type : RowId → RowId → TicketTypeRow → Bool
  owned_type profile_id type_id row =
      row.id == type_id
      && elim (T.events.find_first (λ e. e.id == row.event_id && e.organizer_id == profile_id)
          r.events) [ none ↦ false | some e ↦ true ]

  -- `findOwnedTicketType`
  unfoldable pub find_owned_ticket_type : UserId → RowId → T.types.State → Result TicketTypeRow
  find_owned_ticket_type organizer_id type_id d =
      elim (profile_of T.profiles T.events organizer_id r.profiles) [
        | none ↦ plain forbidden
        | some profile ↦ elim (T.types.find_first (owned_type profile.id type_id) d) [
          | none ↦ plain not_found
          | some row ↦ ok row
        ]
      ]

  -- prisma.ticketType.update: a row that is not there is an error
  unfoldable pub update_row :
      RowId → (TicketTypeRow → TicketTypeRow) → Action T.types.State (Unit {0})
  update_row id f d = elim (T.types.update_many (by_type_id id) f d) [
    | none ↦ (throw error, d)
    | some (count, d') ↦ if count == 0 then (throw error, d) else (ok tt, d')
  ]

  unfoldable pub create_ticket_type :
      UserId → EventId → RowId → CreateTicketTypeDto → Action T.types.State TicketTypeRow
  create_ticket_type organizer_id event_id fresh dto d =
      let row : TicketTypeRow = record {
        id = fresh;
        event_id = event_id;
        name = dto.name;
        price = dto.price;
        quantity = dto.quantity;
        sold = 0;
        sale_start_time = dto.sale_start_time;
        sale_end_time = dto.sale_end_time;
        description = dto.description;
        is_hidden = false;
      } in
      elim (assert_event_owner_and_status T.profiles T.events organizer_id event_id r.profiles
        r.events) [
          | throw e ↦ (throw e, d)
          | ok e ↦ elim (T.types.create row d) [
            | done d' ↦ (ok row, d')
            | p2002 ↦ (throw error, d)
            | rejected ↦ (throw error, d)
          ]
        ]

  unfoldable pub update_ticket_type :
      UserId → RowId → UpdateTicketTypeDto → Action T.types.State (Unit {0})
  update_ticket_type organizer_id id dto d = elim (find_owned_ticket_type organizer_id id d) [
    | throw e ↦ (throw e, d)
    | ok found ↦
        if price_locked dto.price found.sold
        then (plain bad_request, d)
        else (if below_sold dto.quantity found.sold
            then (plain bad_request, d)
            else (if clears_required dto then (throw error, d) else update_row id (patch dto) d))
  ]

  unfoldable pub remove_ticket_type : UserId → RowId → Action T.types.State (Unit {0})
  remove_ticket_type organizer_id id d = elim (find_owned_ticket_type organizer_id id d) [
    | throw e ↦ (throw e, d)
    | ok found ↦
        if ltb 0 found.sold
        then (plain bad_request, d)
        else elim (T.types.delete_many (by_type_id id) d) [
          | none ↦ (throw error, d)
          | some d' ↦ (ok tt, d')
        ]
  ]

  unfoldable pub hide_ticket_type : UserId → RowId → Action T.types.State (Unit {0})
  hide_ticket_type organizer_id id d = elim (find_owned_ticket_type organizer_id id d) [
    | throw e ↦ (throw e, d)
    | ok found ↦ update_row id hide_row d
  ]
