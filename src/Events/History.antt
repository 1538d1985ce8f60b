-- ===== src/Events/History.antt =====
-- Any history of writes of events by organizers, and what may become of the events in it.
use kltn_high_concurrency_co.Prelude.{
  ◌≡◌, refl, sym, subst, inl, inr, Option-cases, some, none, List, [], ◌∷◌, arith, revise, HasKeys,
  HasKeys-append, HasKeys-revise, Grown, Grown-refl, Grown-append, Grown-trans, Grown-revise,
}
use kltn_high_concurrency_co.Common.Ids.{UserId, EventId, RowId}
use kltn_high_concurrency_co.Common.Exception.{ok}
use kltn_high_concurrency_co.Common.AuditLog.{
  create_event_action, AuditRow, never_same, answer_with_audit-kept,
}
use kltn_high_concurrency_co.Prisma.{Write-cases, Table}
use kltn_high_concurrency_co.Catalog.{
  ProfileRow, EventRow, same_user, same_event_id, by_event_id, profile_of, owned_by,
  find_owned_event,
}
use kltn_high_concurrency_co.Catalog.Owned.{find_owned_event-found}
use kltn_high_concurrency_co.Events.{
  CreateEventDto, UpdateEventDto, submit_action, draft_action, first_status, new_event, event_audit,
  patch_event, submit_row, create, update, submit,
}
use kltn_high_concurrency_co.Events.Evolution.{
  Evolves, Evolves-refl, Evolves-trans, IsNew, new_draft, new_pending, IsNew-Evolves,
  Evolves-submit, Evolves-patch,
}
use kltn_high_concurrency_co.Events.Guards.{update-guards, submit-guards}

abbrev pub event_key : EventRow → EventId
event_key row = row.id

-- No event is lost, each evolves, and the new ones are drafts or wait for approval.
abbrev pub IsHistory : List EventRow → List EventRow → Type 0
IsHistory xs ys = Grown event_key Evolves Evolves-refl IsNew xs ys

new_event-IsNew :
    (profile_id : RowId) (fresh : EventId) (dto : CreateEventDto)
    → IsNew (new_event profile_id fresh dto)
new_event-IsNew profile_id fresh dto =
    elim (dto.action)
      as (λ o. IsNew (record (new_event profile_id fresh dto) { status = first_status o })) [
        | none ↦ new_draft refl
        | some draft_action ↦ new_draft refl
        | some submit_action ↦ new_pending refl
      ]

module _ (P : Table ProfileRow same_user) where
  -- A call of the service, with the profiles that it finds.
  pub data Call : Type 0 where
    create_call : P.State → UserId → EventId → CreateEventDto → Call
    update_call : P.State → UserId → EventId → UpdateEventDto → Call
    submit_call : P.State → UserId → EventId → Call

module _ (P : Table ProfileRow same_user) (E : Table EventRow same_event_id)
    (A : Table AuditRow never_same) where
  abbrev pub perform : Call P → E.State × A.State → E.State × A.State
  perform (create_call p u fresh dto) s = (create P E A u fresh dto p s).1
  perform (update_call p u id dto) s = (update P E A u id dto p s).1
  perform (submit_call p u id) s = (submit P E A u id p s).1

  abbrev pub run : List (Call P) → E.State × A.State → E.State × A.State
  run [] s = s
  run (c ∷ cs) s = run cs (perform c s)

  -- The ids are distinct, and the events have evolved from `xs`.
  abbrev IsSound : List EventRow → E.State × A.State → Type 0
  IsSound xs s = HasKeys event_key (E.rows s.0) × IsHistory xs (E.rows s.0)

  -- a write by the id of an event of the user
  changed-IsHistory :
      (u : UserId) (id : EventId) (p : P.State) (f : EventRow → EventRow) (s t : E.State × A.State)
      (x : EventRow)
      → ((y : EventRow) → (f y).id ≡ y.id)
      → HasKeys event_key (E.rows s.0)
      → find_owned_event P E u id p s.0 ≡ ok x
      → Evolves x (f x)
      → E.rows t.0 ≡ revise (by_event_id id) f (E.rows s.0)
      → HasKeys event_key (E.rows t.0) × IsHistory (E.rows s.0) (E.rows t.0)
  changed-IsHistory u id p f s t x same keys owned step rows =
      let (profile, found) = find_owned_event-found P E u id p s.0 x owned in
      (
        subst (HasKeys event_key) (sym rows)
            (HasKeys-revise event_key (by_event_id id) f (E.rows s.0) same keys),
        subst (IsHistory (E.rows s.0)) (sym rows) (
            Grown-revise event_key Evolves Evolves-refl IsNew id (owned_by P E profile.id id) f x
              (E.rows s.0) (λ y fits. ground (arith, fits)) keys found step),
      )

  created-IsHistory :
      (u : UserId) (fresh : EventId) (dto : CreateEventDto) (p : P.State) (e : E.State)
      (a : A.State)
      → HasKeys event_key (E.rows e)
      → IsSound (E.rows e) (create P E A u fresh dto p (e, a)).1
  unfolding create
  created-IsHistory u fresh dto p e a keys = elim (Option-cases (profile_of P E u p)) [
    | inl stranger ↦
        rw (create, stranger) (keys, Grown-refl event_key Evolves Evolves-refl IsNew (E.rows e))
    | inr (profile, there) ↦
        let row = new_event profile.id fresh dto in
        elim (Write-cases (E.create row e)) [
          | inl (e', made) ↦
              let (rows, new) = E.create_done row e e' made in
              let state =
                answer_with_audit-kept A (event_audit u create_event_action fresh) row e' a in
              rw (create, there, made, state, rows)
                (
                  HasKeys-append event_key (E.rows e) row keys new,
                  Grown-append event_key Evolves Evolves-refl IsNew (E.rows e) row
                      (new_event-IsNew profile.id fresh dto),
                )
          | inr (inl clash) ↦
              rw (create, there, clash)
                (keys, Grown-refl event_key Evolves Evolves-refl IsNew (E.rows e))
          | inr (inr failed) ↦
              rw (create, there, failed)
                (keys, Grown-refl event_key Evolves Evolves-refl IsNew (E.rows e))
        ]
  ]

  kept-IsHistory :
      (s t : E.State × A.State)
      → HasKeys event_key (E.rows s.0)
      → E.rows t.0 ≡ E.rows s.0
      → IsSound (E.rows s.0) t
  kept-IsHistory s t keys rows = (
    subst (HasKeys event_key) (sym rows) keys,
    subst (IsHistory (E.rows s.0)) (sym rows)
        (Grown-refl event_key Evolves Evolves-refl IsNew (E.rows s.0)),
  )

  perform-IsHistory :
      (c : Call P) (s : E.State × A.State)
      → HasKeys event_key (E.rows s.0)
      → IsSound (E.rows s.0) (perform c s)
  perform-IsHistory (create_call p u fresh dto) (e, a) keys =
      created-IsHistory u fresh dto p e a keys
  perform-IsHistory (update_call p u id dto) (e, a) keys =
      elim (update-guards P E A u id dto p e a) [
        | inl (x, (bad, kept, why)) ↦
            kept-IsHistory (e, a) (update P E A u id dto p (e, a)).1 keys kept
        | inr (x, owned, allows, (answer, rows)) ↦
            changed-IsHistory u id p (patch_event dto) (e, a) (update P E A u id dto p (e, a)).1 x
              (λ y. refl) keys owned (Evolves-patch x dto allows) rows
      ]
  perform-IsHistory (submit_call p u id) (e, a) keys = elim (submit-guards P E A u id p e a) [
    | inl (x, kept) ↦ kept-IsHistory (e, a) (submit P E A u id p (e, a)).1 keys kept
    | inr (x, owned, fits, (answer, rows)) ↦
        changed-IsHistory u id p submit_row (e, a) (submit P E A u id p (e, a)).1 x (λ y. refl) keys
          owned (Evolves-submit x fits) rows
  ]

  -- After any history of creations, updates and submissions, by any users with any profiles, on every database,
  -- that starts from events with distinct ids: the ids are distinct, no event is lost, each keeps its
  -- id, its owner and its ticket model, its status changed at most from DRAFT or REJECTED to
  -- PENDING_APPROVAL, one that was past these three statuses kept its title, category, times, venue and
  -- limit, and all its fields unless it was APPROVED; the new events are drafts or wait for approval.
  pub run-IsHistory :
      (cs : List (Call P)) (s : E.State × A.State)
      → HasKeys event_key (E.rows s.0)
      → HasKeys event_key (E.rows (run cs s).0) × IsHistory (E.rows s.0) (E.rows (run cs s).0)
  run-IsHistory [] s keys = (keys, Grown-refl event_key Evolves Evolves-refl IsNew (E.rows s.0))
  run-IsHistory (c ∷ cs) s keys =
      let first = perform-IsHistory c s keys in
      let rest = run-IsHistory cs (perform c s) first.0 in
      (
        rest.0,
        Grown-trans event_key Evolves Evolves-refl IsNew Evolves-trans IsNew-Evolves (E.rows s.0)
            (E.rows (perform c s).0) (E.rows (run cs (perform c s)).0) first.1 rest.1,
      )
