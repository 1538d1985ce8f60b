-- ===== src/Events/Listing.antt =====
-- events/events.service.ts: what everybody may read, `listPublic` and `getPublicDetail`. How the database
-- searches a text is not code of the repository: the two comparisons are parameters.
use kltn_high_concurrency_co.Prelude.{
  ℕ, ◌-◌, ◌*◌, ◌≤◌, ◌≡◌, refl, ◌∙◌, sym, subst, ◌⊎◌, inl, inr, Bool, true, false, ◌&&◌, ◌||◌, not,
  Option, none, some, List, [], ◌∷◌, map, length, All, arith, ◌==◌, ==→eq, String, is_empty,
  find-fits, select, select-fits, Option-cases,
}
use kltn_high_concurrency_co.Common.Ids.{EventId, Millis}
use kltn_high_concurrency_co.Common.Exception.{Result, ok, not_found}
use kltn_high_concurrency_co.Prisma.{Table}
use kltn_high_concurrency_co.Catalog.{
  EventStatus, draft, pending_approval, approved, rejected_status, active, locked, cancelled, ended,
  EventRow, TicketTypeRow, ZoneRow, same_event_id, same_type_id, same_zone_id, or_old, plain,
  page_limit, from_filter, to_filter,
}

pub record EventListQueryDto : Type 0 where
  pub keyword : Option String
  pub category : Option String
  pub date_from : Option Millis
  pub date_to : Option Millis
  pub location : Option String
  pub page : Option ℕ
  pub limit : Option ℕ

-- `publicEventSelect`
pub record PublicEvent : Type 0 where
  pub id : EventId
  pub title : String
  pub description : Option String
  pub category : Option String
  pub start_time : Millis
  pub end_time : Millis
  pub venue : Option String
  pub banner_url : Option String
  pub status : EventStatus
  pub max_tickets_per_user : ℕ

abbrev pub public_event_select : EventRow → PublicEvent
public_event_select row = record {
  id = row.id;
  title = row.title;
  description = row.description;
  category = row.category;
  start_time = row.start_time;
  end_time = row.end_time;
  venue = row.venue;
  banner_url = row.banner_url;
  status = row.status;
  max_tickets_per_user = row.max_tickets_per_user;
}

-- { total, page, limit, items }
pub record EventPage : Type 0 where
  pub total : ℕ
  pub page : ℕ
  pub limit : ℕ
  pub items : List PublicEvent

-- `getPublicDetail` selects the zones and those ticket types that are not hidden.
pub record PublicDetail : Type 0 where
  pub event : PublicEvent
  pub ticket_types : List TicketTypeRow
  pub zones : List ZoneRow

abbrev pub is_active_event : EventStatus → Bool
is_active_event active = true
is_active_event _ = false

is_active_event-active : (s : EventStatus) → is_active_event s ≡ true → s ≡ active
is_active_event-active active h = refl
is_active_event-active draft h = absurd (ground (arith, h))
is_active_event-active pending_approval h = absurd (ground (arith, h))
is_active_event-active approved h = absurd (ground (arith, h))
is_active_event-active rejected_status h = absurd (ground (arith, h))
is_active_event-active locked h = absurd (ground (arith, h))
is_active_event-active cancelled h = absurd (ground (arith, h))
is_active_event-active ended h = absurd (ground (arith, h))

module _ (contains equals : String → String → Bool) where
  -- a filter that is not given, or empty, lets every row through; NULL matches no text
  abbrev pub text_filter : (String → String → Bool) → Option String → Option String → Bool
  text_filter test none cell = true
  text_filter test (some wanted) none = is_empty wanted
  text_filter test (some wanted) (some text) = is_empty wanted || test text wanted

  abbrev pub keyword_filter : Option String → EventRow → Bool
  keyword_filter keyword row =
      text_filter contains keyword (some row.title)
      || text_filter contains keyword row.description
      || text_filter contains keyword row.venue

  -- `where`
  abbrev pub public_where : EventListQueryDto → EventRow → Bool
  public_where query row =
      is_active_event row.status
      && keyword_filter query.keyword row
      && text_filter equals query.category row.category
      && text_filter contains query.location row.venue
      && from_filter query.date_from row.start_time
      && to_filter query.date_to row.start_time

  module _ (E : Table EventRow same_event_id) where
    unfoldable pub list_public : EventListQueryDto → E.State → EventPage
    list_public query e =
        let page = or_old query.page 1 in
        let limit = page_limit query.limit in
        let skip = (page - 1) * limit in
        record {
          total = E.count_rows (public_where query) e;
          page = page;
          limit = limit;
          items =
              map public_event_select
                (E.find_page (public_where query) (λ row. row.start_time) skip limit e);
        }

    length-map : (rows : List EventRow) → length (map public_event_select rows) ≡ length rows
    length-map [] = refl
    length-map (row ∷ rows) = omega (arith, length-map rows)

    page_limit-le :
        (limit : Option ℕ) → (page_limit limit ≤ or_old limit 20) × (page_limit limit ≤ 100)
    page_limit-le limit = ground arith

    active_only :
        (query : EventListQueryDto) (rows : List EventRow)
        → All (λ row. public_where query row ≡ true) rows
        → All (λ item. item.status ≡ active) (map public_event_select rows)
    active_only query [] h = tt
    active_only query (row ∷ rows) h =
        (is_active_event-active row.status (ground (arith, h.0)), active_only query rows h.1)

    -- A page of the public list has at most as many items as are asked for, and at most 100; all are ACTIVE.
    pub list_public-active :
        (query : EventListQueryDto) (e : E.State)
        → All (λ item. item.status ≡ active) (list_public query e).items
          × (length (list_public query e).items ≤ or_old query.limit 20)
          × (length (list_public query e).items ≤ 100)
    unfolding list_public
    list_public-active query e =
        let limit = page_limit query.limit in
        let (fits, few) =
          E.find_page_lem (public_where query) (λ row. row.start_time)
            ((or_old query.page 1 - 1) * limit) limit e in
        let rows =
          E.find_page (public_where query) (λ row. row.start_time)
            ((or_old query.page 1 - 1) * limit) limit e in
        (
          active_only query rows fits,
          omega (arith, length-map rows, few, (page_limit-le query.limit).0),
          omega (arith, length-map rows, few, (page_limit-le query.limit).1),
        )

module _ (E : Table EventRow same_event_id) (T : Table TicketTypeRow same_type_id)
    (Z : Table ZoneRow same_zone_id) where
  unfoldable pub get_public_detail : EventId → E.State → T.State → Z.State → Result PublicDetail
  get_public_detail event_id e t z =
      elim (E.find_first (λ row. row.id == event_id && is_active_event row.status) e) [
        | none ↦ plain not_found
        | some row ↦ ok (record {
          event = public_event_select row;
          ticket_types = T.find_many (λ type. type.event_id == event_id && not type.is_hidden) t;
          zones = Z.find_many (λ zone. zone.event_id == event_id) z;
        })
      ]

  shown :
      (event_id : EventId) (types : List TicketTypeRow)
      → All (λ type. (type.event_id == event_id && not type.is_hidden) ≡ true) types
      → All (λ type. (type.event_id ≡ event_id) × (type.is_hidden ≡ false)) types
  shown event_id [] h = tt
  shown event_id (type ∷ types) h = (
    (==→eq type.event_id event_id (ground (arith, h.0)), ground (arith, h.0)),
    shown event_id types h.1,
  )

  -- The detail of an event is 404, or of the ACTIVE event with the id, with ticket types that belong to it and are not hidden.
  pub get_public_detail-shown :
      (event_id : EventId) (e : E.State) (t : T.State) (z : Z.State)
      → (get_public_detail event_id e t z ≡ plain not_found)
        ⊎ ((d : PublicDetail) × (get_public_detail event_id e t z ≡ ok d)
            × (d.event.id ≡ event_id)
            × (d.event.status ≡ active)
            × All (λ type. (type.event_id ≡ event_id) × (type.is_hidden ≡ false)) d.ticket_types)
  unfolding get_public_detail
  get_public_detail-shown event_id e t z =
      let asked : EventRow → Bool = λ row. row.id == event_id && is_active_event row.status in
      elim (Option-cases (E.find_first asked e)) [
        | inl gone ↦ inl (rw (get_public_detail, gone) refl)
        | inr (row, found) ↦
            let fits = find-fits asked (E.rows e) row (sym (E.find_first_lem asked e) ∙ found) in
            let visible : TicketTypeRow → Bool =
              λ type. type.event_id == event_id && not type.is_hidden in
            inr (
              record {
                event = public_event_select row;
                ticket_types = T.find_many visible t;
                zones = Z.find_many (λ zone. zone.event_id == event_id) z;
              },
              rw (get_public_detail, found) refl,
              ==→eq row.id event_id (ground (arith, fits)),
              is_active_event-active row.status (ground (arith, fits)),
              subst (All (λ type. (type.event_id ≡ event_id) × (type.is_hidden ≡ false)))
                  (sym (T.find_many_lem visible t))
                  (shown event_id (select visible (T.rows t)) (select-fits visible (T.rows t))),
            )
      ]
