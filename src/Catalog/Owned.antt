-- ===== src/Catalog/Owned.antt =====
-- What the search for an event of a user finds.
use kltn_high_concurrency_co.Prelude.{
  ◌≡◌, sym, ◌∙◌, inl, inr, true, some, find, Option-cases, arith, Bool-cases, ap, subst,
}
use kltn_high_concurrency_co.Common.Ids.{UserId, EventId}
use kltn_high_concurrency_co.Common.Exception.{ok, Result-cases}
use kltn_high_concurrency_co.Prisma.{Table}
use kltn_high_concurrency_co.Catalog.{
  ProfileRow, EventRow, same_user, same_event_id, is_mutable, profile_of, owned_by,
  find_owned_event, assert_event_owner_and_status,
}

module _ (P : Table ProfileRow same_user) (E : Table EventRow same_event_id) where
  -- the event belongs to a profile, the first of the user
  pub find_owned_event-found :
      (u : UserId) (id : EventId) (p : P.State) (e : E.State) (x : EventRow)
      → find_owned_event P E u id p e ≡ ok x
      → (profile : ProfileRow) × (find (owned_by P E profile.id id) (E.rows e) ≡ some x)
  unfolding find_owned_event
  find_owned_event-found u id p e x owned = elim (Option-cases (profile_of P E u p)) [
    | inl stranger ↦ absurd (ground (arith, owned, stranger))
    | inr (profile, there) ↦ elim (Option-cases (E.find_first (owned_by P E profile.id id) e)) [
      | inl gone ↦ absurd (ground (arith, owned, there, gone))
      | inr (y, found) ↦
          let here : y ≡ x = ground (arith, owned, there, found) in
          (profile, sym (E.find_first_lem (owned_by P E profile.id id) e) ∙ found ∙ ap some here)
    ]
  ]

  pub assert_event_owner_and_status-found :
      (u : UserId) (id : EventId) (p : P.State) (e : E.State) (x : EventRow)
      → assert_event_owner_and_status P E u id p e ≡ ok x
      → (find_owned_event P E u id p e ≡ ok x) × (is_mutable x.status ≡ true)
  unfolding assert_event_owner_and_status
  assert_event_owner_and_status-found u id p e x h =
      elim (Result-cases (find_owned_event P E u id p e)) [
        | inr (bad, refused) ↦ absurd (ground (arith, h, refused))
        | inl (y, owned) ↦ elim (Bool-cases (is_mutable y.status)) [
          | inr over ↦ absurd (ground (arith, h, owned, over))
          | inl opened ↦
              let here : y ≡ x = ground (arith, h, owned, opened) in
              (owned ∙ ap ok here, subst (λ z. is_mutable z.status ≡ true) here opened)
        ]
      ]
