-- ===== src/Seats/Ownership.antt =====
-- The count of ticket types that `assertTicketTypesOwnership` compares shows that each type is there.
use kltn_high_concurrency_co.Prelude.{
  ℕ, ◌≤◌, ◌≡◌, refl, sym, ◌∙◌, inl, inr, Bool, true, false, not, ◌&&◌, List, [], ◌∷◌, map, mem,
  erase, length, arith, ◌==◌, any, count, select, mem-erase_ne, length-erase, HasKeys, Bool-cases,
  All, ==→eq, ==_refl,
}
use kltn_high_concurrency_co.Common.Ids.{EventId, RowId}
use kltn_high_concurrency_co.Catalog.{TicketTypeRow}
use kltn_high_concurrency_co.Seats.Labels.{SeatMapConfigDto}
use kltn_high_concurrency_co.Seats.{Tables, unique, type_ids, are_types_of}

abbrev pub type_key : TicketTypeRow → RowId
type_key type = type.id

mem-select :
    (k x : ℕ) (ys : List ℕ) → (k == x) ≡ false → mem k (select (λ y. not (y == x)) ys) ≡ mem k ys
unfolding mem select
mem-select k x [] h = refl
mem-select k x (y ∷ ys) h = ground (arith, mem-select k x ys h)

mem-unique : (k : ℕ) (xs : List ℕ) → mem k xs ≡ true → mem k (unique xs) ≡ true
unfolding mem unique
mem-unique k [] h = h
mem-unique k (x ∷ xs) h = elim (Bool-cases (k == x)) [
  | inl same ↦ ground (arith, same)
  | inr other ↦ ground (arith, h, other, mem-unique k xs, mem-select k x (unique xs) other)
]

module _ (event_id : EventId) where
  -- the types of the event with one of the ids
  abbrev wanted : List RowId → TicketTypeRow → Bool
  wanted ids type = mem type.id ids && type.event_id == event_id

  -- a type of the event with the id
  abbrev pub is_type : RowId → TicketTypeRow → Bool
  is_type id type = type.id == id && type.event_id == event_id

  -- an id that no type of the event has can be taken out
  count-erase :
      (id : RowId) (ids : List RowId) (types : List TicketTypeRow)
      → any (is_type id) types ≡ false
      → count (wanted (erase id ids)) types ≡ count (wanted ids) types
  unfolding any count
  count-erase id ids [] h = refl
  count-erase id ids (x ∷ types) h =
      ground (arith, h, count-erase id ids types, mem-erase_ne x.id id ids)

  absent :
      (id : RowId) (types : List TicketTypeRow)
      → any (λ y. y.id == id) types ≡ false
      → any (is_type id) types ≡ false
  unfolding any
  absent id [] h = refl
  absent id (x ∷ types) h = ground (arith, h, absent id types)

  -- distinct ids are met at most once
  count-le :
      (ids : List RowId) (types : List TicketTypeRow)
      → HasKeys type_key types
      → count (wanted ids) types ≤ length ids
  unfolding count
  count-le ids [] keys = omega arith
  count-le ids (x ∷ types) keys = elim (Bool-cases (wanted ids x)) [
    | inr other ↦ ground (arith, other, count-le ids types keys.1)
    | inl fits ↦ ground (
      arith,
      fits,
      count-erase x.id ids types (absent x.id types keys.0),
      count-le (erase x.id ids) types keys.1,
      length-erase x.id ids,
    )
  ]

  count-there :
      (id : RowId) (ids : List RowId) (types : List TicketTypeRow)
      → HasKeys type_key types
      → mem id ids ≡ true
      → count (wanted ids) types ≡ length ids
      → any (is_type id) types ≡ true
  count-there id ids types keys inside all = elim (Bool-cases (any (is_type id) types)) [
    | inl there ↦ there
    | inr gone ↦ absurd (
        omega (
          arith,
          all,
          count-erase id ids types gone,
          count-le (erase id ids) types keys,
          length-erase id ids inside,
        ))
  ]

  All-there :
      (ids : List RowId) (sections : List SeatMapConfigDto) (types : List TicketTypeRow)
      → ((k : RowId)
          → mem k (map (λ section. section.ticket_type_id) sections) ≡ true
          → any (is_type k) types ≡ true)
      → All (λ section. any (is_type section.ticket_type_id) types ≡ true) sections
  unfolding mem
  All-there ids [] types h = tt
  All-there ids (x ∷ sections) types h = (
    h x.ticket_type_id (ground (arith, ==_refl x.ticket_type_id)),
    All-there ids sections types (λ k inside. h k (ground (arith, inside))),
  )

-- If the check lets the sections of a request through, and the ids of ticket types are distinct, then the type of
-- each section is a type of the event.
pub are_types_of-All :
    (T : Tables) (event_id : EventId) (sections : List SeatMapConfigDto) (t : T.types.State)
    → HasKeys type_key (T.types.rows t)
    → are_types_of T event_id (type_ids sections) t ≡ true
    → All
        (λ section. any (is_type event_id section.ticket_type_id) (T.types.rows t) ≡ true)
        sections
unfolding are_types_of
are_types_of-All T event_id sections t keys h =
    let ids = type_ids sections in
    let all : count (wanted event_id ids) (T.types.rows t) ≡ length ids =
      sym (T.types.count_rows_lem (wanted event_id ids) t)
      ∙ ==→eq (T.types.count_rows (wanted event_id ids) t) (length ids) h in
    All-there event_id ids sections (T.types.rows t) (λ k inside.
      count-there event_id k ids (T.types.rows t) keys
        (mem-unique k (map (λ section. section.ticket_type_id) sections) inside) all)
