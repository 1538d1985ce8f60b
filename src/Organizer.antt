-- ===== src/Organizer.antt =====
-- organizer/organizer.service.ts: what organizers see of the sales of their events, and their profile.
pub mod Rows
pub mod Sales
pub mod Profile
use kltn_high_concurrency_co.Prelude.{
  ℕ, ◌+◌, ◌-◌, ◌*◌, Bool, true, false, ◌&&◌, ◌||◌, not, Option, none, some, List, [], ◌∷◌, length,
  mem, leb, ◌==◌, if◌then◌else◌, String, same_text,
}
use kltn_high_concurrency_co.Common.Ids.{UserId, EventId, OrderId, RowId, Millis}
use kltn_high_concurrency_co.Common.Exception.{
  OrderStatus, pending, paid, expired, cancelled, Result, ok, throw, error, bad_request, forbidden,
  not_found,
}
use kltn_high_concurrency_co.Common.Action.{Action}
use kltn_high_concurrency_co.Prisma.{Table}
use kltn_high_concurrency_co.Prisma.Single.{update_one}
use kltn_high_concurrency_co.Catalog.{
  ProfileRow, EventRow, TicketTypeRow, pending_review, same_user, same_event_id, same_type_id,
  or_old, is_cleared, plain, profile_of, owned_by, page_limit, from_filter, to_filter,
}
use kltn_high_concurrency_co.Seats.Labels.{SeatStatus, available, locked, sold, SeatRow}
use kltn_high_concurrency_co.Seats.{any_seat, of_event}
use Rows.{
  SaleRow, same_sale, OrderListQueryDto, UpdateOrganizerProfileDto, SalePage, SeatCounts, SaleStats,
  UpdatedProfile, same_status, same_seat_status, status_filter, type_filter, sales_where,
  revenue_of, group_of, requires_review, has_fields, patch_profile, by_profile_id,
}

module _ (P : Table ProfileRow same_user) (E : Table EventRow same_event_id) where
  -- `getOwnedProfile`, which is `getProfile`
  unfoldable pub get_owned_profile : UserId → P.State → Result ProfileRow
  get_owned_profile user_id p = elim (profile_of P E user_id p) [
    | none ↦ plain forbidden
    | some profile ↦ ok profile
  ]

  -- `assertEventOwner`
  unfoldable pub assert_event_owner : RowId → EventId → E.State → Result EventRow
  assert_event_owner profile_id event_id e =
      elim (E.find_first (owned_by P E profile_id event_id) e) [
        | none ↦ plain not_found
        | some event ↦ ok event
      ]

  unfoldable pub update_profile : UserId → UpdateOrganizerProfileDto → Action P.State UpdatedProfile
  update_profile organizer_id dto p = elim (get_owned_profile organizer_id p) [
    | throw x ↦ (throw x, p)
    | ok profile ↦
        if has_fields dto
        then (if is_cleared dto.org_name
            then (throw error, p)
            else let (answer, p') = update_one P (by_profile_id profile.id) (patch_profile dto) p in
              elim answer [
                | throw x ↦ (throw x, p')
                | ok row ↦ (
                  ok (record {
                    updated = row;
                    note = requires_review dto.org_name profile.org_name;
                  }),
                  p',
                )
              ])
        else (plain bad_request, p)
  ]

  module _ (O : Table SaleRow same_sale) where
    unfoldable pub list_orders :
        UserId → EventId → OrderListQueryDto → P.State → E.State → O.State → Result SalePage
    list_orders organizer_id event_id query p e o = elim (get_owned_profile organizer_id p) [
      | throw x ↦ throw x
      | ok profile ↦ elim (assert_event_owner profile.id event_id e) [
        | throw x ↦ throw x
        | ok event ↦
            let page = or_old query.page 1 in
            let limit = page_limit query.limit in
            let skip = (page - 1) * limit in
            ok (record {
              total = O.count_rows (sales_where event_id query) o;
              page = page;
              limit = limit;
              items = O.find_page (sales_where event_id query) (λ row. row.created_at) skip limit o;
            })
      ]
    ]

    -- `where: { id, event: { organizerId } }`
    abbrev pub owned_sale : RowId → OrderId → E.State → SaleRow → Bool
    owned_sale profile_id order_id e row =
        row.id == order_id && elim (E.find_first (owned_by P E profile_id row.event_id) e) [
          | none ↦ false
          | some event ↦ true
        ]

    unfoldable pub get_order : UserId → OrderId → P.State → E.State → O.State → Result SaleRow
    get_order organizer_id order_id p e o = elim (get_owned_profile organizer_id p) [
      | throw x ↦ throw x
      | ok profile ↦ elim (O.find_first (owned_sale profile.id order_id e) o) [
        | none ↦ plain not_found
        | some order ↦ ok order
      ]
    ]

    abbrev pub is_paid_order : EventId → SaleRow → Bool
    is_paid_order event_id row = row.event_id == event_id && same_status row.status paid

    module _ (T : Table TicketTypeRow same_type_id) (S : Table SeatRow any_seat) where
      abbrev pub count_seats : EventId → SeatStatus → S.State → Option ℕ
      count_seats event_id status s =
          group_of
            (S.count_rows (λ seat. of_event event_id seat && same_seat_status seat.status status) s)

      unfoldable pub get_stats :
          UserId → EventId → P.State → E.State → O.State → T.State → S.State → Result SaleStats
      get_stats organizer_id event_id p e o t s = elim (get_owned_profile organizer_id p) [
        | throw x ↦ throw x
        | ok profile ↦ elim (assert_event_owner profile.id event_id e) [
          | throw x ↦ throw x
          | ok event ↦
              let paid_orders = O.find_many (is_paid_order event_id) o in
              ok (record {
                total_orders = O.count_rows (λ row. row.event_id == event_id) o;
                paid_orders = length paid_orders;
                revenue = revenue_of 0 paid_orders;
                ticket_types = T.find_many (λ type. type.event_id == event_id) t;
                seat_counts = record {
                  available_count = count_seats event_id available s;
                  locked_count = count_seats event_id locked s;
                  sold_count = count_seats event_id sold s;
                };
              })
        ]
      ]
