-- ===== src/Seats/Transaction.antt =====
-- The transaction that makes a seat map or zones does both of its writes or none.
use kltn_high_concurrency_co.Prelude.{
  ◌≡◌, refl, ◌∙◌, inl, inr, ◌⊎◌, Bool, true, false, List, ◌++◌, none, some, revise, Option-cases,
}
use kltn_high_concurrency_co.Common.Ids.{UserId, EventId}
use kltn_high_concurrency_co.Common.Exception.{Result, ok, throw, error}
use kltn_high_concurrency_co.Prisma.{Table}
use kltn_high_concurrency_co.Prisma.Single.{update_one, IsUnwritten, update_one-why}
use kltn_high_concurrency_co.Catalog.{
  TicketModelType, EventRow, by_event_id, given, is_mutable, find_owned_event,
}
use kltn_high_concurrency_co.Seats.{Tables, set_model, transaction}

module _ (T : Tables) where
  module _ {Row : Type 0} {clash : Row → Row → Bool} (X : Table Row clash) where
    -- Why the transaction was rolled back.
    pub data IsRolledBack (id : EventId) (model : TicketModelType) (rows : List Row)
        (e : T.events.State) (x : X.State) : Type 0 where
      event_unwritten :
          IsUnwritten T.events (by_event_id id) (set_model model) e → IsRolledBack id model rows e x
      rows_unwritten : X.create_many rows x ≡ none → IsRolledBack id model rows e x
      events_uncommitted :
          T.events.commit (update_one T.events (by_event_id id) (set_model model) e).1 ≡ none
          → IsRolledBack id model rows e x
      rows_uncommitted :
          (x' : X.State)
          → X.create_many rows x ≡ some x'
          → X.commit x' ≡ none
          → IsRolledBack id model rows e x

    -- The transaction did both writes and answers what it read in the table behind its own rows.
    abbrev pub IsCommitted :
        EventId
        → TicketModelType
        → List Row
        → (X.State → List Row)
        → T.events.State × X.State
        → Result (List Row) × (T.events.State × X.State)
        → Type 0
    IsCommitted id model rows read s o =
        ((x' : X.State) × (X.rows x' ≡ X.rows s.1 ++ rows) × (o.0 ≡ ok (read x')))
        × (T.events.rows o.1.0 ≡ revise (by_event_id id) (set_model model) (T.events.rows s.0))
        × (X.rows o.1.1 ≡ X.rows s.1 ++ rows)

    pub transaction-cases :
        (id : EventId) (model : TicketModelType) (rows : List Row) (read : X.State → List Row)
        (e : T.events.State) (x : X.State)
        → ((transaction T X id model rows read (e, x) ≡ (throw error, (e, x)))
            × IsRolledBack id model rows e x)
          ⊎ IsCommitted id model rows read (e, x) (transaction T X id model rows read (e, x))
    unfolding transaction
    transaction-cases id model rows read e x =
        elim (update_one-why T.events (by_event_id id) (set_model model) e (λ row fits. fits)) [
          | inl (bad, kept, why) ↦ inl (rw (transaction, bad) refl, event_unwritten why)
          | inr (row, good, changed, found) ↦
              let e' = (update_one T.events (by_event_id id) (set_model model) e).1 in
              elim (Option-cases (X.create_many rows x)) [
                | inl failed ↦ inl (rw (transaction, good, failed) refl, rows_unwritten failed)
                | inr (x', made) ↦ elim (Option-cases (T.events.commit e')) [
                  | inl failed ↦
                      inl (rw (transaction, good, made, failed) refl, events_uncommitted failed)
                  | inr (e'', kept) ↦ elim (Option-cases (X.commit x')) [
                    | inl failed ↦ inl (
                      rw (transaction, good, made, kept, failed) refl,
                      rows_uncommitted x' made failed,
                    )
                    | inr (x'', finished) ↦
                        let after = X.create_many_done rows x x' made in
                        inr (
                          (x', after, rw (transaction, good, made, kept, finished) refl),
                          rw (transaction, good, made, kept, finished)
                              (T.events.commit_done e' e'' kept ∙ changed),
                          rw (transaction, good, made, kept, finished)
                              (X.commit_done x' x'' finished ∙ after),
                        )
                  ]
                ]
              ]
        ]

  -- The event is the user's, its sale is still prepared, and it has no seats or zones yet.
  abbrev pub IsOpen : UserId → EventId → T.profiles.State → T.events.State → Type 0
  IsOpen u id p e =
      (x : EventRow) × (find_owned_event T.profiles T.events u id p e ≡ ok x)
      × (is_mutable x.status ≡ true)
      × (given x.ticket_model ≡ false)
