-- ===== src/Events/Guards.antt =====
-- Which writes of events are refused, and what the others write.
use kltn_high_concurrency_co.Prelude.{
  ◌≡◌, ◌∙◌, ap, refl, sym, subst, none, ◌⊎◌, inl, inr, true, some, arith, find, revise, Bool-cases,
  if◌then◌else◌,
}
use kltn_high_concurrency_co.Common.Ids.{UserId, EventId}
use kltn_high_concurrency_co.Common.Exception.{
  Exception, Result, ok, throw, error, http_exception, bad_request, Result-cases,
}
use kltn_high_concurrency_co.Common.AuditLog.{
  AuditAction, update_event_action, submit_event_action, AuditRow, never_same,
  answer_with_audit-kept, answer_with_audit-answers,
}
use kltn_high_concurrency_co.Prisma.{Table, p2002, rejected}
use kltn_high_concurrency_co.Prisma.Single.{update_one, IsUnwritten, update_one-why}
use kltn_high_concurrency_co.Catalog.{
  approved, ProfileRow, EventRow, same_user, same_event_id, by_event_id, find_owned_event,
}
use kltn_high_concurrency_co.Events.{
  UpdateEventDto, is_approved, has_disallowed_keys, clears_required, is_submittable, patch_event,
  submit_row, event_audit, write_event, update, submit,
}
use kltn_high_concurrency_co.Events.Permission.{
  IsOver, status-cases, IsEditable-tests, IsOver-tests, has_disallowed_keys-IsTextsOnly, IsAllowed,
  in_preparation, while_on_sale, IsTextsOnly-tests,
}

module _ (P : Table ProfileRow same_user) (E : Table EventRow same_event_id)
    (A : Table AuditRow never_same) where
  -- The answer and the rows after a call.
  abbrev pub Outcome : Type 0
  Outcome = Result EventRow × (E.State × A.State)

  -- The call changed the event, and answered it unless the database did not take the audit row.
  abbrev pub IsChanged :
      AuditRow → EventId → (EventRow → EventRow) → E.State → A.State → Outcome → Type 0
  IsChanged row id f e a o =
      (((o.0 ≡ throw error) × ((A.create row a ≡ p2002) ⊎ (A.create row a ≡ rejected)))
        ⊎ ((y : EventRow) × (o.0 ≡ ok y) × (find (by_event_id id) (E.rows o.1.0) ≡ some y)))
      × (E.rows o.1.0 ≡ revise (by_event_id id) f (E.rows e))

  pub write_event-cases :
      (u : UserId) (action : AuditAction) (id : EventId) (f : EventRow → EventRow) (e : E.State)
      (a : A.State)
      → ((x : EventRow) → (f x).id ≡ x.id)
      → (((write_event P E A u action id f (e, a)).0 ≡ throw error)
          × (E.rows (write_event P E A u action id f (e, a)).1.0 ≡ E.rows e)
          × IsUnwritten E (by_event_id id) f e)
        ⊎ IsChanged (event_audit u action id) id f e a (write_event P E A u action id f (e, a))
  unfolding write_event
  write_event-cases u action id f e a same =
      let keeps : (x : EventRow) → by_event_id id x ≡ true → by_event_id id (f x) ≡ true =
        λ x fits. ground (arith, same x, fits) in
      elim (update_one-why E (by_event_id id) f e keeps) [
        | inl (bad, kept, why) ↦ inl (rw (write_event, bad) refl, rw (write_event, bad) kept, why)
        | inr (y, good, rows, found) ↦
            let after = (update_one E (by_event_id id) f e).1 in
            let row = event_audit u action id in
            let state = answer_with_audit-kept A row y after a in
            inr (
              elim (answer_with_audit-answers A row y after a) [
                | inl answer ↦
                    inr (y, rw (write_event, good) answer, rw (write_event, good, state) found)
                | inr (failed, why) ↦ inl (rw (write_event, good) failed, why)
              ],
              rw (write_event, good, state) rows,
            )
      ]

  -- Why an update of an event throws `x`.
  pub data IsBlocked (u : UserId) (id : EventId) (dto : UpdateEventDto) (p : P.State) (e : E.State)
      (x : Exception) : Type 0 where
    not_owned : find_owned_event P E u id p e ≡ throw x → IsBlocked u id dto p e x
    on_sale :
        (row : EventRow)
        → find_owned_event P E u id p e ≡ ok row
        → row.status ≡ approved
        → has_disallowed_keys dto ≡ true
        → x ≡ http_exception bad_request none
        → IsBlocked u id dto p e x
    over :
        (row : EventRow)
        → find_owned_event P E u id p e ≡ ok row
        → IsOver row.status
        → x ≡ http_exception bad_request none
        → IsBlocked u id dto p e x
    null_given : clears_required dto ≡ true → x ≡ error → IsBlocked u id dto p e x
    unwritten :
        IsUnwritten E (by_event_id id) (patch_event dto) e → x ≡ error → IsBlocked u id dto p e x

  -- The update threw `x` and left all rows alone.
  abbrev pub IsStopped :
      UserId → EventId → UpdateEventDto → P.State → E.State → A.State → Exception → Type 0
  IsStopped u id dto p e a x =
      ((update P E A u id dto p (e, a)).0 ≡ throw x)
      × (E.rows (update P E A u id dto p (e, a)).1.0 ≡ E.rows e)
      × IsBlocked u id dto p e x

  update-let_through :
      (u : UserId) (id : EventId) (dto : UpdateEventDto) (p : P.State) (e : E.State) (a : A.State)
      (x : EventRow)
      → find_owned_event P E u id p e ≡ ok x
      → IsAllowed x dto
      → update P E A u id dto p (e, a) ≡ (
          if clears_required dto
          then (throw error, (e, a))
          else write_event P E A u update_event_action id (patch_event dto) (e, a))
  unfolding update
  update-let_through u id dto p e a x owned (in_preparation early) =
      let (unsold, editable) = IsEditable-tests x.status early in
      rw (update, owned, unsold, editable) refl
  update-let_through u id dto p e a x owned (while_on_sale sold texts) =
      rw (update, owned, ap is_approved sold, IsTextsOnly-tests dto texts) refl

  -- The update was of an event of the user, was allowed, and changed the event.
  abbrev pub IsDone : UserId → EventId → UpdateEventDto → P.State → E.State → A.State → Type 0
  IsDone u id dto p e a =
      (x : EventRow) × (find_owned_event P E u id p e ≡ ok x)
      × IsAllowed x dto
      × IsChanged (event_audit u update_event_action id) id (patch_event dto) e a
          (update P E A u id dto p (e, a))

  -- what an update does that the status lets through
  update-written :
      (u : UserId) (id : EventId) (dto : UpdateEventDto) (p : P.State) (e : E.State) (a : A.State)
      (x : EventRow)
      → find_owned_event P E u id p e ≡ ok x
      → IsAllowed x dto
      → ((y : Exception) × IsStopped u id dto p e a y) ⊎ IsDone u id dto p e a
  update-written u id dto p e a x owned allowed =
      let through = update-let_through u id dto p e a x owned allowed in
      elim (Bool-cases (clears_required dto)) [
        | inl nulls ↦
            let stops : update P E A u id dto p (e, a) ≡ (throw error, (e, a)) =
              through ∙ rw nulls refl in
            inl (error, (rw stops refl, rw stops refl, null_given nulls refl))
        | inr full ↦
            let same : update P E A u id dto p (e, a)
                ≡ write_event P E A u update_event_action id (patch_event dto) (e, a) =
              through ∙ rw full refl in
            elim (write_event-cases u update_event_action id (patch_event dto) e a (λ y. refl)) [
              | inl (bad, kept, why) ↦ inl (
                error,
                (ap (λ o. o.0) same ∙ bad, ap (λ o. E.rows o.1.0) same ∙ kept, unwritten why refl),
              )
              | inr changed ↦ inr (
                x,
                owned,
                allowed,
                subst (IsChanged (event_audit u update_event_action id) id (patch_event dto) e a)
                    (sym same) changed,
              )
            ]
      ]

  -- An update of an event either throws and changes no event, because the event is not one of the user, because it is
  -- APPROVED and more than the description and the banner is given, because it is ACTIVE, LOCKED,
  -- CANCELLED or ENDED, because null is given for the title or the limit, or because the database rejects
  -- the change or does not find the event after it; or it is of an event of the user whose status is
  -- DRAFT, PENDING_APPROVAL or REJECTED, or APPROVED with at most the description and the banner given: it
  -- patches the rows with its id with the fields given, and answers the patched row unless the
  -- database does not take the row of the audit log.
  pub update-guards :
      (u : UserId) (id : EventId) (dto : UpdateEventDto) (p : P.State) (e : E.State) (a : A.State)
      → ((y : Exception) × IsStopped u id dto p e a y) ⊎ IsDone u id dto p e a
  unfolding update
  update-guards u id dto p e a = elim (Result-cases (find_owned_event P E u id p e)) [
    | inr (x, bad) ↦ inl (x, (rw (update, bad) refl, rw (update, bad) refl, not_owned bad))
    | inl (x, owned) ↦ elim (status-cases x.status) [
      | inr (inl early) ↦ update-written u id dto p e a x owned (in_preparation early)
      | inr (inr late) ↦
          let (unsold, closed) = IsOver-tests x.status late in
          inl (
            http_exception bad_request none,
            (
              rw (update, owned, unsold, closed) refl,
              rw (update, owned, unsold, closed) refl,
              over x owned late refl,
            ),
          )
      | inl sold ↦ elim (Bool-cases (has_disallowed_keys dto)) [
        | inl keys ↦ inl (
          http_exception bad_request none,
          (
            rw (update, owned, ap is_approved sold, keys) refl,
            rw (update, owned, ap is_approved sold, keys) refl,
            on_sale x owned sold keys refl,
          ),
        )
        | inr texts ↦
            update-written u id dto p e a x owned
              (while_on_sale sold (has_disallowed_keys-IsTextsOnly dto texts))
      ]
    ]
  ]

  -- A submission either throws and changes no event, or it is of an event of the user that is a draft or was
  -- rejected: it sets the rows with its id to PENDING_APPROVAL, and answers the row unless the database does
  -- not take the row of the audit log.
  pub submit-guards :
      (u : UserId) (id : EventId) (p : P.State) (e : E.State) (a : A.State)
      → (((x : Exception) × ((submit P E A u id p (e, a)).0 ≡ throw x))
          × (E.rows (submit P E A u id p (e, a)).1.0 ≡ E.rows e))
        ⊎ ((x : EventRow) × (find_owned_event P E u id p e ≡ ok x)
            × (is_submittable x.status ≡ true)
            × IsChanged
                (event_audit u submit_event_action id)
                id
                submit_row
                e
                a
                (submit P E A u id p (e, a)))
  unfolding submit
  submit-guards u id p e a = elim (Result-cases (find_owned_event P E u id p e)) [
    | inr (x, bad) ↦ inl ((x, rw (submit, bad) refl), rw (submit, bad) refl)
    | inl (x, owned) ↦ elim (Bool-cases (is_submittable x.status)) [
      | inr stays ↦ inl (
        (http_exception bad_request none, rw (submit, owned, stays) refl),
        rw (submit, owned, stays) refl,
      )
      | inl fits ↦
          let same : submit P E A u id p (e, a)
              ≡ write_event P E A u submit_event_action id submit_row (e, a) =
            rw (submit, owned, fits) refl in
          elim (write_event-cases u submit_event_action id submit_row e a (λ y. refl)) [
            | inl (bad, kept, why) ↦
                inl ((error, ap (λ o. o.0) same ∙ bad), ap (λ o. E.rows o.1.0) same ∙ kept)
            | inr changed ↦ inr (
              x,
              owned,
              fits,
              subst (IsChanged (event_audit u submit_event_action id) id submit_row e a) (sym same)
                  changed,
            )
          ]
    ]
  ]
