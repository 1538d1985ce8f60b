-- ===== src/Organizer/Sales.antt =====
-- An organizer sees the orders of the own events only.
use kltn_high_concurrency_co.Prelude.{
  ◌≡◌, ◌≤◌, refl, sym, ◌∙◌, inl, inr, ◌⊎◌, true, some, All, length, find-fits, count, arith, ==→eq,
  Option-cases, subst, ◌-◌, ◌*◌,
}
use kltn_high_concurrency_co.Common.Ids.{UserId, EventId, OrderId, RowId}
use kltn_high_concurrency_co.Common.Exception.{Exception, ok, throw, Result-cases}
use kltn_high_concurrency_co.Prisma.{Table}
use kltn_high_concurrency_co.Catalog.{
  ProfileRow, EventRow, same_user, same_event_id, or_old, profile_of, owned_by, page_limit,
}
use kltn_high_concurrency_co.Organizer.Rows.{
  SaleRow, same_sale, OrderListQueryDto, SalePage, sales_where,
}
use kltn_high_concurrency_co.Organizer.{
  get_owned_profile, assert_event_owner, list_orders, owned_sale, get_order,
}

module _ (P : Table ProfileRow same_user) (E : Table EventRow same_event_id) where
  get_owned_profile-found :
      (u : UserId) (p : P.State) (x : ProfileRow)
      → get_owned_profile P E u p ≡ ok x
      → profile_of P E u p ≡ some x
  unfolding get_owned_profile
  get_owned_profile-found u p x h = elim (Option-cases (profile_of P E u p)) [
    | inl gone ↦ absurd (ground (arith, h, gone))
    | inr (y, there) ↦ ground (arith, h, there)
  ]

  assert_event_owner-found :
      (profile_id : RowId) (id : EventId) (e : E.State) (x : EventRow)
      → assert_event_owner P E profile_id id e ≡ ok x
      → E.find_first (owned_by P E profile_id id) e ≡ some x
  unfolding assert_event_owner
  assert_event_owner-found profile_id id e x h =
      elim (Option-cases (E.find_first (owned_by P E profile_id id) e)) [
        | inl gone ↦ absurd (ground (arith, h, gone))
        | inr (y, there) ↦ ground (arith, h, there)
      ]

  -- The event is one of the profile of the user.
  abbrev pub IsOwned : UserId → EventId → P.State → E.State → Type 0
  IsOwned u id p e =
      (profile : ProfileRow) × (event : EventRow) × (profile_of P E u p ≡ some profile)
      × (E.find_first (owned_by P E profile.id id) e ≡ some event)

  module _ (O : Table SaleRow same_sale) where
    -- A list of orders is refused, or is of an event of the user: each of its orders is of the event and fits the filters, and
    -- there are at most as many as are asked for and at most 100.
    pub list_orders-IsOwned :
        (u : UserId) (id : EventId) (query : OrderListQueryDto) (p : P.State) (e : E.State)
        (o : O.State)
        → ((x : Exception) × (list_orders P E O u id query p e o ≡ throw x))
          ⊎ ((page : SalePage) × (list_orders P E O u id query p e o ≡ ok page)
              × IsOwned u id p e
              × All (λ row. sales_where id query row ≡ true) page.items
              × (length page.items ≤ page_limit query.limit)
              × (page.total ≡ count (sales_where id query) (O.rows o)))
    unfolding list_orders
    list_orders-IsOwned u id query p e o = elim (Result-cases (get_owned_profile P E u p)) [
      | inr (x, stranger) ↦ inl (x, rw (list_orders, stranger) refl)
      | inl (profile, known) ↦ elim (Result-cases (assert_event_owner P E profile.id id e)) [
        | inr (x, other) ↦ inl (x, rw (list_orders, known, other) refl)
        | inl (event, mine) ↦
            let page = or_old query.page 1 in
            let limit = page_limit query.limit in
            let skip = (page - 1) * limit in
            let (fits, few) =
              O.find_page_lem (sales_where id query) (λ row. row.created_at) skip limit o in
            inr (
              record {
                total = O.count_rows (sales_where id query) o;
                page = page;
                limit = limit;
                items = O.find_page (sales_where id query) (λ row. row.created_at) skip limit o;
              },
              rw (list_orders, known, mine) refl,
              (
                profile,
                event,
                get_owned_profile-found u p profile known,
                assert_event_owner-found profile.id id e event mine,
              ),
              fits,
              few,
              O.count_rows_lem (sales_where id query) o,
            )
      ]
    ]

    -- An order that an organizer reads has the id asked for and is of an event of the user.
    pub get_order-IsOwned :
        (u : UserId) (id : OrderId) (p : P.State) (e : E.State) (o : O.State) (row : SaleRow)
        → get_order P E O u id p e o ≡ ok row
        → (row.id ≡ id) × IsOwned u row.event_id p e
    unfolding get_order
    get_order-IsOwned u id p e o row h = elim (Result-cases (get_owned_profile P E u p)) [
      | inr (x, stranger) ↦ absurd (ground (arith, h, stranger))
      | inl (profile, known) ↦
          elim (Option-cases (O.find_first (owned_sale P E O profile.id id e) o)) [
            | inl gone ↦ absurd (ground (arith, h, known, gone))
            | inr (found, there) ↦
                let same : found ≡ row = ground (arith, h, known, there) in
                let owned = owned_sale P E O profile.id id e in
                let fits =
                  find-fits owned (O.rows o) found (sym (O.find_first_lem owned o) ∙ there) in
                elim (Option-cases (E.find_first (owned_by P E profile.id found.event_id) e)) [
                  | inl none_there ↦ absurd (ground (arith, fits, none_there))
                  | inr (event, mine) ↦
                      subst (λ r. (r.id ≡ id) × IsOwned u r.event_id p e) same
                        (
                          ==→eq found.id id (ground (arith, fits)),
                          (profile, event, get_owned_profile-found u p profile known, mine),
                        )
                ]
          ]
    ]
