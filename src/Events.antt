-- ===== src/Events.antt =====
-- events/events.service.ts: the operations that write an event, each followed by a row of the audit
-- log. The id of a new event, which the database draws, comes in as an argument.
pub mod Evolution
pub mod History
pub mod Permission
pub mod Guards
pub mod Listing
use kltn_high_concurrency_co.Prelude.{
  ℕ, Bool, true, false, ◌||◌, Option, none, some, if◌then◌else◌, String,
}
use kltn_high_concurrency_co.Common.Ids.{UserId, EventId, RowId, Millis}
use kltn_high_concurrency_co.Common.Exception.{
  Result, ok, throw, error, http_exception, bad_request, forbidden,
}
use kltn_high_concurrency_co.Common.Action.{Action}
use kltn_high_concurrency_co.Common.AuditLog.{
  AuditAction, create_event_action, update_event_action, submit_event_action, AuditRow, never_same,
  answer_with_audit,
}
use kltn_high_concurrency_co.Prisma.{done, p2002, rejected, Table}
use kltn_high_concurrency_co.Prisma.Single.{update_one}
use kltn_high_concurrency_co.Catalog.{
  EventStatus, draft, pending_approval, approved, rejected_status, ProfileRow, EventRow, same_user,
  same_event_id, is_mutable, or_old, Field, is_given, is_cleared, written, written_or_none,
  written_time, by_event_id, plain, profile_of, find_owned_event,
}

pub data SubmitAction : Type 0 where
  draft_action submit_action : SubmitAction

-- The times are those that the texts of the request denote.
pub record CreateEventDto : Type 0 where
  pub title : String
  pub description : Option String
  pub category : Option String
  pub start_time : Millis
  pub end_time : Millis
  pub venue : Option String
  pub banner_url : Option String
  pub max_tickets_per_user : Option ℕ
  pub action : Option SubmitAction

pub record UpdateEventDto : Type 0 where
  pub title : Field String
  pub description : Field String
  pub category : Field String
  pub start_time : Field Millis
  pub end_time : Field Millis
  pub venue : Field String
  pub banner_url : Field String
  pub max_tickets_per_user : Field ℕ

-- dto.action === SubmitAction.SUBMIT ? PENDING_APPROVAL : DRAFT
abbrev pub first_status : Option SubmitAction → EventStatus
first_status (some submit_action) = pending_approval
first_status _ = draft

abbrev pub is_approved : EventStatus → Bool
is_approved approved = true
is_approved _ = false

-- `disallowedKeys.length > 0`: a key of the request that APPROVED_EDITABLE_FIELDS lacks
abbrev pub has_disallowed_keys : UpdateEventDto → Bool
has_disallowed_keys dto =
    is_given dto.title
    || is_given dto.category
    || is_given dto.start_time
    || is_given dto.end_time
    || is_given dto.venue
    || is_given dto.max_tickets_per_user

-- a null for a column that must have a value
abbrev pub clears_required : UpdateEventDto → Bool
clears_required dto = is_cleared dto.title || is_cleared dto.max_tickets_per_user

-- submittableStatuses
abbrev pub is_submittable : EventStatus → Bool
is_submittable draft = true
is_submittable rejected_status = true
is_submittable _ = false

abbrev pub new_event : RowId → EventId → CreateEventDto → EventRow
new_event profile_id fresh dto = record {
  id = fresh;
  organizer_id = profile_id;
  title = dto.title;
  description = dto.description;
  category = dto.category;
  start_time = dto.start_time;
  end_time = dto.end_time;
  venue = dto.venue;
  banner_url = dto.banner_url;
  status = first_status dto.action;
  ticket_model = none;
  max_tickets_per_user = or_old dto.max_tickets_per_user 4;
}

-- the fields of the request that are given
abbrev pub patch_event : UpdateEventDto → EventRow → EventRow
patch_event dto row = record row {
  title = written dto.title row.title;
  description = written_or_none dto.description row.description;
  category = written_or_none dto.category row.category;
  start_time = written_time dto.start_time row.start_time;
  end_time = written_time dto.end_time row.end_time;
  venue = written_or_none dto.venue row.venue;
  banner_url = written_or_none dto.banner_url row.banner_url;
  max_tickets_per_user = written dto.max_tickets_per_user row.max_tickets_per_user;
}

abbrev pub submit_row : EventRow → EventRow
submit_row row = record row { status = pending_approval }

abbrev pub event_audit : UserId → AuditAction → EventId → AuditRow
event_audit organizer_id action event_id = record {
  user_id = organizer_id;
  action = action;
  resource_id = some event_id;
}

module _ (P : Table ProfileRow same_user) (E : Table EventRow same_event_id)
    (A : Table AuditRow never_same) where
  unfoldable pub create :
      UserId → EventId → CreateEventDto → P.State → Action (E.State × A.State) EventRow
  create organizer_id fresh dto p (e, a) = elim (profile_of P E organizer_id p) [
    | none ↦ (plain forbidden, (e, a))
    | some profile ↦
        let row = new_event profile.id fresh dto in
        elim (E.create row e) [
          | done e' ↦
              answer_with_audit A (event_audit organizer_id create_event_action fresh) row e' a
          | p2002 ↦ (throw error, (e, a))
          | rejected ↦ (throw error, (e, a))
        ]
  ]

  -- prisma.event.update, then the audit row
  unfoldable pub write_event :
      UserId → AuditAction → EventId → (EventRow → EventRow) → Action (E.State × A.State) EventRow
  write_event organizer_id action event_id change (e, a) =
      let (answer, e') = update_one E (by_event_id event_id) change e in
      elim answer [
        | throw x ↦ (throw x, (e', a))
        | ok updated ↦ answer_with_audit A (event_audit organizer_id action event_id) updated e' a
      ]

  unfoldable pub update :
      UserId → EventId → UpdateEventDto → P.State → Action (E.State × A.State) EventRow
  update organizer_id event_id dto p (e, a) =
      elim (find_owned_event P E organizer_id event_id p e) [
        | throw x ↦ (throw x, (e, a))
        | ok event ↦
            let refused : Result EventRow × (E.State × A.State) = (plain bad_request, (e, a)) in
            let changed : Result EventRow × (E.State × A.State) =
              if clears_required dto
              then (throw error, (e, a))
              else write_event organizer_id update_event_action event_id (patch_event dto) (e, a) in
            if is_approved event.status
            then (if has_disallowed_keys dto then refused else changed)
            else (if is_mutable event.status then changed else refused)
      ]

  unfoldable pub submit : UserId → EventId → P.State → Action (E.State × A.State) EventRow
  submit organizer_id event_id p (e, a) = elim (find_owned_event P E organizer_id event_id p e) [
    | throw x ↦ (throw x, (e, a))
    | ok event ↦
        if is_submittable event.status
        then write_event organizer_id submit_event_action event_id submit_row (e, a)
        else (plain bad_request, (e, a))
  ]
