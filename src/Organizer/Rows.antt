-- ===== src/Organizer/Rows.antt =====
-- The requests and the answers of organizer/organizer.service.ts, the columns of an order that it reads, and
-- the filters of its queries.
use kltn_high_concurrency_co.Prelude.{
  ℕ, ◌+◌, Bool, true, false, ◌&&◌, ◌||◌, not, Option, none, some, List, [], ◌∷◌, mem, ◌==◌,
  if◌then◌else◌, String, same_text,
}
use kltn_high_concurrency_co.Common.Ids.{UserId, EventId, OrderId, RowId, Millis}
use kltn_high_concurrency_co.Common.Exception.{OrderStatus, pending, paid, expired, cancelled}
use kltn_high_concurrency_co.Catalog.{
  ProfileRow, TicketTypeRow, pending_review, Field, left_out, cleared, set_to, is_given, written,
  written_or_none, from_filter, to_filter,
}
use kltn_high_concurrency_co.Seats.Labels.{SeatStatus, available, locked, sold}

-- An order as the service selects it, with the ticket types of its items.
pub record SaleRow : Type 0 where
  pub id : OrderId
  pub user_id : UserId
  pub event_id : EventId
  pub status : OrderStatus
  pub total_amount : ℕ
  pub created_at : Millis
  pub ticket_type_ids : List RowId

abbrev pub same_sale : SaleRow → SaleRow → Bool
same_sale r s = r.id == s.id

pub record OrderListQueryDto : Type 0 where
  pub status : Option OrderStatus
  pub date_from : Option Millis
  pub date_to : Option Millis
  pub ticket_type_id : Option RowId
  pub page : Option ℕ
  pub limit : Option ℕ

pub record UpdateOrganizerProfileDto : Type 0 where
  pub org_name : Field String
  pub description : Field String
  pub logo_url : Field String
  pub banner_url : Field String
  pub website : Field String
  pub contact_email : Field String
  pub contact_phone : Field String

pub record SalePage : Type 0 where
  pub total : ℕ
  pub page : ℕ
  pub limit : ℕ
  pub items : List SaleRow

-- `groupBy` has no group for a status that no seat has.
pub record SeatCounts : Type 0 where
  pub available_count : Option ℕ
  pub locked_count : Option ℕ
  pub sold_count : Option ℕ

-- Amounts of money are counted in cents.
pub record SaleStats : Type 0 where
  pub total_orders : ℕ
  pub paid_orders : ℕ
  pub revenue : ℕ
  pub ticket_types : List TicketTypeRow
  pub seat_counts : SeatCounts

-- The answer of `updateProfile`: the row, and whether it has the note on the review.
pub record UpdatedProfile : Type 0 where
  pub updated : ProfileRow
  pub note : Bool

abbrev pub same_status : OrderStatus → OrderStatus → Bool
same_status pending pending = true
same_status paid paid = true
same_status expired expired = true
same_status cancelled cancelled = true
same_status _ _ = false

abbrev pub same_seat_status : SeatStatus → SeatStatus → Bool
same_seat_status available available = true
same_seat_status locked locked = true
same_seat_status sold sold = true
same_seat_status _ _ = false

abbrev pub status_filter : Option OrderStatus → OrderStatus → Bool
status_filter none status = true
status_filter (some wanted) status = same_status status wanted

abbrev pub type_filter : Option RowId → List RowId → Bool
type_filter none ids = true
type_filter (some wanted) ids = mem wanted ids

-- `where` of `listOrders`
abbrev pub sales_where : EventId → OrderListQueryDto → SaleRow → Bool
sales_where event_id query row =
    row.event_id == event_id
    && status_filter query.status row.status
    && from_filter query.date_from row.created_at
    && to_filter query.date_to row.created_at
    && type_filter query.ticket_type_id row.ticket_type_ids

-- paidOrders.reduce((sum, o) => sum + Number(o.totalAmount), 0)
unfoldable pub revenue_of : ℕ → List SaleRow → ℕ
revenue_of sum [] = sum
revenue_of sum (o ∷ orders) = revenue_of (sum + o.total_amount) orders

abbrev pub group_of : ℕ → Option ℕ
group_of n = if n == 0 then none else some n

-- dto.orgName !== undefined && dto.orgName !== profile.orgName
abbrev pub requires_review : Field String → String → Bool
requires_review left_out org_name = false
requires_review cleared org_name = true
requires_review (set_to wanted) org_name = not (same_text wanted org_name)

abbrev pub has_fields : UpdateOrganizerProfileDto → Bool
has_fields dto =
    is_given dto.org_name
    || is_given dto.description
    || is_given dto.logo_url
    || is_given dto.banner_url
    || is_given dto.website
    || is_given dto.contact_email
    || is_given dto.contact_phone

abbrev pub patch_profile : UpdateOrganizerProfileDto → ProfileRow → ProfileRow
patch_profile dto row = record row {
  org_name = written dto.org_name row.org_name;
  status = if is_given dto.org_name then pending_review else row.status;
  description = written_or_none dto.description row.description;
  logo_url = written_or_none dto.logo_url row.logo_url;
  banner_url = written_or_none dto.banner_url row.banner_url;
  website = written_or_none dto.website row.website;
  contact_email = written_or_none dto.contact_email row.contact_email;
  contact_phone = written_or_none dto.contact_phone row.contact_phone;
}

abbrev pub by_profile_id : RowId → ProfileRow → Bool
by_profile_id id row = row.id == id
