-- ===== src/Catalog.antt =====
-- prisma/schema.prisma: the rows of organizers and of their events, which the services of the
-- organizers share, and the test whose event a request may change. Texts are kept as they are.
pub mod Owned
use kltn_high_concurrency_co.Prelude.{
  ℕ, Bool, true, false, ◌&&◌, ◌≡◌, refl, ◌⊎◌, inl, inr, Option, none, some, ◌==◌, if◌then◌else◌,
  String, leb,
}
use kltn_high_concurrency_co.Common.Ids.{UserId, EventId, RowId, Millis}
use kltn_high_concurrency_co.Common.Exception.{
  HttpError, Result, ok, throw, http_exception, bad_request, forbidden, not_found,
}
use kltn_high_concurrency_co.Prisma.{Table}

pub data EventStatus : Type 0 where
  draft pending_approval approved rejected_status : EventStatus
  active locked cancelled ended : EventStatus

pub data TicketModelType : Type 0 where
  seat_map zone : TicketModelType

pub data OrganizerStatus : Type 0 where
  pending_review approved_organizer rejected_organizer : OrganizerStatus

pub record ProfileRow : Type 0 where
  pub id : RowId
  pub user_id : UserId
  pub org_name : String
  pub description : Option String
  pub logo_url : Option String
  pub banner_url : Option String
  pub website : Option String
  pub contact_email : Option String
  pub contact_phone : Option String
  pub status : OrganizerStatus

pub record EventRow : Type 0 where
  pub id : EventId
  pub organizer_id : RowId
  pub title : String
  pub description : Option String
  pub category : Option String
  pub start_time : Millis
  pub end_time : Millis
  pub venue : Option String
  pub banner_url : Option String
  pub status : EventStatus
  pub ticket_model : Option TicketModelType
  pub max_tickets_per_user : ℕ

pub record TicketTypeRow : Type 0 where
  pub id : RowId
  pub event_id : EventId
  pub name : String
  pub price : ℕ
  pub quantity : ℕ
  pub sold : ℕ
  pub sale_start_time : Millis
  pub sale_end_time : Millis
  pub description : Option String
  pub is_hidden : Bool

pub record ZoneRow : Type 0 where
  pub id : RowId
  pub event_id : EventId
  pub name : String
  pub capacity : ℕ
  pub ticket_type_id : Option RowId

-- `userId` is unique, and so are the ids.
abbrev pub same_user : ProfileRow → ProfileRow → Bool
same_user r s = r.user_id == s.user_id

abbrev pub same_event_id : EventRow → EventRow → Bool
same_event_id r s = r.id == s.id

abbrev pub same_type_id : TicketTypeRow → TicketTypeRow → Bool
same_type_id r s = r.id == s.id

abbrev pub same_zone_id : ZoneRow → ZoneRow → Bool
same_zone_id r s = r.id == s.id

-- MUTABLE_EVENT_STATUSES
abbrev pub is_mutable : EventStatus → Bool
is_mutable draft = true
is_mutable pending_approval = true
is_mutable rejected_status = true
is_mutable _ = false

-- A field of a request to change a row: left out, the JSON null, which @IsOptional lets through, or a value.
pub data Field (A : Type 0) : Type 0 where
  left_out cleared : Field A
  set_to : A → Field A

-- dto.field !== undefined
abbrev pub is_given : {A : Type 0} → Field A → Bool
is_given left_out = false
is_given cleared = true
is_given (set_to a) = true

-- A null in a column that must have a value makes Prisma refuse the write.
abbrev pub is_cleared : {A : Type 0} → Field A → Bool
is_cleared left_out = false
is_cleared cleared = true
is_cleared (set_to a) = false

-- if (dto.field !== undefined) data.field = dto.field
abbrev pub written : {A : Type 0} → Field A → A → A
written left_out old = old
written cleared old = old
written (set_to new) old = new

-- the same for a column that may be null
abbrev pub written_or_none : {A : Type 0} → Field A → Option A → Option A
written_or_none left_out old = old
written_or_none cleared old = none
written_or_none (set_to new) old = some new

-- data.time = new Date(dto.time), where new Date(null) is the start of the epoch
abbrev pub written_time : Field Millis → Millis → Millis
written_time left_out old = old
written_time cleared old = 0
written_time (set_to new) old = new

-- A parameter that a request may leave out is an `Option`.
abbrev pub or_old : {A : Type 0} → Option A → A → A
or_old none old = old
or_old (some new) old = new

abbrev pub given : {A : Type 0} → Option A → Bool
given none = false
given (some a) = true

-- Math.min(query.limit ?? 20, 100)
abbrev pub page_limit : Option ℕ → ℕ
page_limit limit = let asked = or_old limit 20 in if leb asked 100 then asked else 100

-- `gte` and `lte` of a time, if the query gives one
abbrev pub from_filter : Option Millis → Millis → Bool
from_filter none time = true
from_filter (some bound) time = leb bound time

abbrev pub to_filter : Option Millis → Millis → Bool
to_filter none time = true
to_filter (some bound) time = leb time bound

abbrev pub by_event_id : EventId → EventRow → Bool
by_event_id id row = row.id == id

abbrev pub plain : {A : Type 0} → HttpError → Result A
plain e = throw (http_exception e none)

module _ (P : Table ProfileRow same_user) (E : Table EventRow same_event_id) where
  abbrev pub profile_of : UserId → P.State → Option ProfileRow
  profile_of organizer_id p = P.find_first (λ row. row.user_id == organizer_id) p

  abbrev pub owned_by : RowId → EventId → EventRow → Bool
  owned_by profile_id event_id row = row.id == event_id && row.organizer_id == profile_id

  -- `findOwnedEvent`: the event, if the user has a profile to which it belongs
  unfoldable pub find_owned_event : UserId → EventId → P.State → E.State → Result EventRow
  find_owned_event organizer_id event_id p e = elim (profile_of organizer_id p) [
    | none ↦ plain forbidden
    | some profile ↦ elim (E.find_first (owned_by profile.id event_id) e) [
      | none ↦ plain not_found
      | some event ↦ ok event
    ]
  ]

  -- `assertEventOwnerAndStatus`: and its sale has not been prepared yet
  unfoldable pub assert_event_owner_and_status :
      UserId → EventId → P.State → E.State → Result EventRow
  assert_event_owner_and_status organizer_id event_id p e =
      elim (find_owned_event organizer_id event_id p e) [
        | throw x ↦ throw x
        | ok event ↦ if is_mutable event.status then ok event else plain bad_request
      ]
