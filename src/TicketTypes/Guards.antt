-- ===== src/TicketTypes/Guards.antt =====
-- What an organizer can no longer change once tickets are sold.
use kltn_high_concurrency_co.Prelude.{
  ℕ, ◌<◌, ◌≤◌, some, ◌≡◌, ◌⊎◌, refl, true, false, none, arith, revise, select, if◌then◌else◌, ltb,
  Bool-cases, Option-cases, inl, inr,
}
use kltn_high_concurrency_co.Common.Ids.{UserId, RowId}
use kltn_high_concurrency_co.Common.Exception.{
  ok, throw, error, Result-cases, Exception, http_exception, bad_request,
}
use kltn_high_concurrency_co.Catalog.{TicketTypeRow, Field, left_out, cleared, set_to, is_given}
use kltn_high_concurrency_co.TicketTypes.{
  UpdateTicketTypeDto, clears_required, patch, by_type_id, Tables, Setting, find_owned_ticket_type,
  update_ticket_type, remove_ticket_type,
}

-- the number that a given quantity is compared as
pub data ComparesAs : Field ℕ → ℕ → Type 0 where
  as_zero : ComparesAs cleared 0
  as_given : (quantity : ℕ) → ComparesAs (set_to quantity) quantity

-- A quantity that covers what is sold, if one is given.
pub data Covers : Field ℕ → ℕ → Type 0 where
  no_quantity : (sold : ℕ) → Covers left_out sold
  enough : (quantity sold : ℕ) → sold ≤ quantity → Covers (set_to quantity) sold

module _ (T : Tables) (r : Setting T) where
  -- Why an update throws `x`.
  pub data IsBlocked (u : UserId) (id : RowId) (dto : UpdateTicketTypeDto) (d : T.types.State)
      (x : Exception) : Type 0 where
    not_owned : find_owned_ticket_type T r u id d ≡ throw x → IsBlocked u id dto d x
    price_fixed :
        (row : TicketTypeRow)
        → find_owned_ticket_type T r u id d ≡ ok row
        → is_given dto.price ≡ true
        → 0 < row.sold
        → x ≡ http_exception bad_request none
        → IsBlocked u id dto d x
    below :
        (row : TicketTypeRow) (n : ℕ)
        → find_owned_ticket_type T r u id d ≡ ok row
        → ComparesAs dto.quantity n
        → n < row.sold
        → x ≡ http_exception bad_request none
        → IsBlocked u id dto d x
    null_given : clears_required dto ≡ true → x ≡ error → IsBlocked u id dto d x
    not_written :
        T.types.update_many (by_type_id id) (patch dto) d ≡ none
        → x ≡ error
        → IsBlocked u id dto d x
    gone :
        (d' : T.types.State)
        → T.types.update_many (by_type_id id) (patch dto) d ≡ some (0, d')
        → x ≡ error
        → IsBlocked u id dto d x

  -- The update was let through by the type `row`, which the organizer owns: its price is not given unless nothing of
  -- it is sold, a quantity that is given covers what is sold, and the rows with the id are patched.
  abbrev pub IsUpdated :
      UserId → RowId → UpdateTicketTypeDto → T.types.State → TicketTypeRow → Type 0
  IsUpdated u id dto d row =
      (find_owned_ticket_type T r u id d ≡ ok row)
      × ((is_given dto.price ≡ false) ⊎ (row.sold ≡ 0))
      × Covers dto.quantity row.sold
      × ((update_ticket_type T r u id dto d).0 ≡ ok tt)
      × (T.types.rows (update_ticket_type T r u id dto d).1
          ≡ revise (by_type_id id) (patch dto) (T.types.rows d))

  -- A removal that succeeds is of a type that the organizer owns and of which nothing is sold; it keeps
  -- exactly the rows with other ids. One that throws changes nothing.
  pub remove_ticket_type-guards :
      (u : UserId) (id : RowId) (d : T.types.State)
      → ((e : Exception) × (remove_ticket_type T r u id d ≡ (throw e, d)))
        ⊎ ((row : TicketTypeRow) × (find_owned_ticket_type T r u id d ≡ ok row)
            × (row.sold ≡ 0)
            × (T.types.rows (remove_ticket_type T r u id d).1
                ≡ select (λ x. if by_type_id id x then false else true) (T.types.rows d)))
  unfolding remove_ticket_type
  remove_ticket_type-guards u id d = elim (Result-cases (find_owned_ticket_type T r u id d)) [
    | inr (e, bad) ↦ inl (e, rw (remove_ticket_type, bad) refl)
    | inl (row, found) ↦ elim (Bool-cases (ltb 0 row.sold)) [
      | inl fixed ↦
          inl (http_exception bad_request none, rw (remove_ticket_type, found, fixed) refl)
      | inr free ↦ elim (Option-cases (T.types.delete_many (by_type_id id) d)) [
        | inl failed ↦ inl (error, rw (remove_ticket_type, found, free, failed) refl)
        | inr (d', written) ↦ inr (
          row,
          found,
          ground arith,
          rw (remove_ticket_type, found, free, written)
              (T.types.delete_many_done (by_type_id id) d d' written),
        )
      ]
    ]
  ]
