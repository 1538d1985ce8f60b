-- ===== src/Events/Permission.antt =====
-- Which fields of an event the statuses let an update change.
use kltn_high_concurrency_co.Prelude.{◌≡◌, refl, ◌⊎◌, inl, inr, true, false, arith}
use kltn_high_concurrency_co.Catalog.{
  EventStatus, draft, pending_approval, approved, rejected_status, active, locked, cancelled, ended,
  EventRow, is_mutable, Field, left_out, cleared, set_to, is_given,
}
use kltn_high_concurrency_co.Events.{UpdateEventDto, is_approved, has_disallowed_keys}

-- The statuses in which every field may change, and those in which none may.
pub data IsEditable : EventStatus → Type 0 where
  as_draft : IsEditable draft
  as_pending : IsEditable pending_approval
  as_rejected : IsEditable rejected_status

pub data IsOver : EventStatus → Type 0 where
  as_active : IsOver active
  as_locked : IsOver locked
  as_cancelled : IsOver cancelled
  as_ended : IsOver ended

pub status-cases : (s : EventStatus) → (s ≡ approved) ⊎ (IsEditable s ⊎ IsOver s)
status-cases draft = inr (inl as_draft)
status-cases pending_approval = inr (inl as_pending)
status-cases approved = inl refl
status-cases rejected_status = inr (inl as_rejected)
status-cases active = inr (inr as_active)
status-cases locked = inr (inr as_locked)
status-cases cancelled = inr (inr as_cancelled)
status-cases ended = inr (inr as_ended)

pub IsEditable-tests :
    (s : EventStatus) → IsEditable s → (is_approved s ≡ false) × (is_mutable s ≡ true)
IsEditable-tests s as_draft = (refl, refl)
IsEditable-tests s as_pending = (refl, refl)
IsEditable-tests s as_rejected = (refl, refl)

pub IsOver-tests : (s : EventStatus) → IsOver s → (is_approved s ≡ false) × (is_mutable s ≡ false)
IsOver-tests s as_active = (refl, refl)
IsOver-tests s as_locked = (refl, refl)
IsOver-tests s as_cancelled = (refl, refl)
IsOver-tests s as_ended = (refl, refl)

-- The request gives at most the description and the banner.
pub record IsTextsOnly (dto : UpdateEventDto) : Type 0 where
  title : dto.title ≡ left_out
  category : dto.category ≡ left_out
  start_time : dto.start_time ≡ left_out
  end_time : dto.end_time ≡ left_out
  venue : dto.venue ≡ left_out
  max_tickets_per_user : dto.max_tickets_per_user ≡ left_out

not_given : {A : Type 0} (o : Field A) → is_given o ≡ false → o ≡ left_out
not_given left_out h = refl
not_given cleared h = absurd (ground (arith, h))
not_given (set_to a) h = absurd (ground (arith, h))

pub has_disallowed_keys-IsTextsOnly :
    (dto : UpdateEventDto) → has_disallowed_keys dto ≡ false → IsTextsOnly dto
has_disallowed_keys-IsTextsOnly dto h = record {
  title = not_given dto.title (ground (arith, h));
  category = not_given dto.category (ground (arith, h));
  start_time = not_given dto.start_time (ground (arith, h));
  end_time = not_given dto.end_time (ground (arith, h));
  venue = not_given dto.venue (ground (arith, h));
  max_tickets_per_user = not_given dto.max_tickets_per_user (ground (arith, h));
}

-- The status lets an update with the fields of the request through.
pub data IsAllowed (x : EventRow) (dto : UpdateEventDto) : Type 0 where
  in_preparation : IsEditable x.status → IsAllowed x dto
  while_on_sale : x.status ≡ approved → IsTextsOnly dto → IsAllowed x dto

pub IsTextsOnly-tests : (dto : UpdateEventDto) → IsTextsOnly dto → has_disallowed_keys dto ≡ false
IsTextsOnly-tests dto texts =
    rw
      (
        texts.title, texts.category, texts.start_time, texts.end_time, texts.venue,
        texts.max_tickets_per_user,
      )
      refl
