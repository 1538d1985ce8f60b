-- ===== src/Events/Evolution.antt =====
-- What may become of an event while organizers write it: the state machine of its status, and the
-- fields that no longer change.
use kltn_high_concurrency_co.Prelude.{◌≡◌, refl, ◌∙◌, ◌⊎◌, inl, inr, true, false, Option, arith}
use kltn_high_concurrency_co.Common.Ids.{Millis}
use kltn_high_concurrency_co.Catalog.{
  EventStatus, draft, pending_approval, approved, rejected_status, active, locked, cancelled, ended,
  EventRow, Field, left_out, cleared, set_to, is_given, written, written_or_none, written_time,
}
use kltn_high_concurrency_co.Events.Permission.{
  IsEditable, as_draft, as_rejected, IsTextsOnly-tests, IsAllowed, in_preparation, while_on_sale,
}
use kltn_high_concurrency_co.Events.{
  UpdateEventDto, has_disallowed_keys, is_submittable, patch_event, submit_row,
}

-- The moves of the status: an event is sent for approval, for the first time or after a refusal.
infix 40 ◌⟶◌
pub data ◌⟶◌ : EventStatus → EventStatus → Type 0 where
  stay : {s : EventStatus} → s ⟶ s
  send : draft ⟶ pending_approval
  send_again : rejected_status ⟶ pending_approval

pub ⟶-trans : (s t u : EventStatus) → s ⟶ t → t ⟶ u → s ⟶ u
⟶-trans s t u stay q = q
⟶-trans s t u send stay = send
⟶-trans s t u send_again stay = send_again

-- Nothing leads into a status in which all may be edited, or into APPROVED, but such a status itself.
⟶-IsEditable : (s t : EventStatus) → s ⟶ t → IsEditable t → IsEditable s
⟶-IsEditable s t stay h = h
⟶-IsEditable s t send h = as_draft
⟶-IsEditable s t send_again h = as_rejected

⟶-approved : (s t : EventStatus) → s ⟶ t → t ≡ approved → s ≡ approved
⟶-approved s t stay h = h
⟶-approved s t send h = absurd (ground (arith, h))
⟶-approved s t send_again h = absurd (ground (arith, h))

-- What buyers rely on.
pub record IsFrozen (x y : EventRow) : Type 0 where
  title : y.title ≡ x.title
  category : y.category ≡ x.category
  start_time : y.start_time ≡ x.start_time
  end_time : y.end_time ≡ x.end_time
  venue : y.venue ≡ x.venue
  max_tickets_per_user : y.max_tickets_per_user ≡ x.max_tickets_per_user

-- `y` is what became of the event `x`: unless `x` was a draft, waited for approval or was rejected, the
-- frozen fields are as they were, and all fields unless `x` was approved.
pub record Evolves (x y : EventRow) : Type 0 where
  id : y.id ≡ x.id
  organizer_id : y.organizer_id ≡ x.organizer_id
  ticket_model : y.ticket_model ≡ x.ticket_model
  status : x.status ⟶ y.status
  kept : IsEditable x.status ⊎ (IsFrozen x y × ((x.status ≡ approved) ⊎ (y ≡ x)))

IsFrozen-refl : (x : EventRow) → IsFrozen x x
IsFrozen-refl x = record {
  title = refl;
  category = refl;
  start_time = refl;
  end_time = refl;
  venue = refl;
  max_tickets_per_user = refl;
}

IsFrozen-trans : (x y z : EventRow) → IsFrozen x y → IsFrozen y z → IsFrozen x z
IsFrozen-trans x y z f g = record {
  title = g.title ∙ f.title;
  category = g.category ∙ f.category;
  start_time = g.start_time ∙ f.start_time;
  end_time = g.end_time ∙ f.end_time;
  venue = g.venue ∙ f.venue;
  max_tickets_per_user = g.max_tickets_per_user ∙ f.max_tickets_per_user;
}

pub Evolves-refl : (x : EventRow) → Evolves x x
Evolves-refl x = record {
  id = refl;
  organizer_id = refl;
  ticket_model = refl;
  status = stay;
  kept = inr (IsFrozen-refl x, inr refl);
}

-- the fields of an event over two steps
kept_trans :
    (x y z : EventRow)
    → Evolves x y
    → Evolves y z
    → IsEditable x.status ⊎ (IsFrozen x z × ((x.status ≡ approved) ⊎ (z ≡ x)))
kept_trans x y z a b = elim a.kept [
  | inl early ↦ inl early
  | inr (f, first) ↦ elim b.kept [
    | inl early ↦ inl (⟶-IsEditable x.status y.status a.status early)
    | inr (g, second) ↦ inr (
      IsFrozen-trans x y z f g,
      elim first [
        | inl sold ↦ inl sold
        | inr stays ↦ elim second [
          | inl sold ↦ inl (⟶-approved x.status y.status a.status sold)
          | inr stays' ↦ inr (stays' ∙ stays)
        ]
      ],
    )
  ]
]

pub Evolves-trans : (x y z : EventRow) → Evolves x y → Evolves y z → Evolves x z
Evolves-trans x y z a b = record {
  id = b.id ∙ a.id;
  organizer_id = b.organizer_id ∙ a.organizer_id;
  ticket_model = b.ticket_model ∙ a.ticket_model;
  status = ⟶-trans x.status y.status z.status a.status b.status;
  kept = kept_trans x y z a b;
}

-- A new event waits for approval or is a draft.
pub data IsNew : EventRow → Type 0 where
  new_draft : {x : EventRow} → x.status ≡ draft → IsNew x
  new_pending : {x : EventRow} → x.status ≡ pending_approval → IsNew x

new_stays :
    (s t : EventStatus)
    → s ⟶ t
    → (s ≡ draft) ⊎ (s ≡ pending_approval)
    → (t ≡ draft) ⊎ (t ≡ pending_approval)
new_stays s t stay h = h
new_stays s t send h = inr refl
new_stays s t send_again h = inr refl

pub IsNew-Evolves : (x y : EventRow) → IsNew x → Evolves x y → IsNew y
IsNew-Evolves x y (new_draft e) v = elim (new_stays x.status y.status v.status (inl e)) [
  | inl d ↦ new_draft d
  | inr p ↦ new_pending p
]
IsNew-Evolves x y (new_pending e) v = elim (new_stays x.status y.status v.status (inr e)) [
  | inl d ↦ new_draft d
  | inr p ↦ new_pending p
]

submittable_moves :
    (s : EventStatus) → is_submittable s ≡ true → (s ⟶ pending_approval) × IsEditable s
submittable_moves draft h = (send, as_draft)
submittable_moves rejected_status h = (send_again, as_rejected)
submittable_moves pending_approval h = absurd (ground (arith, h))
submittable_moves approved h = absurd (ground (arith, h))
submittable_moves active h = absurd (ground (arith, h))
submittable_moves locked h = absurd (ground (arith, h))
submittable_moves cancelled h = absurd (ground (arith, h))
submittable_moves ended h = absurd (ground (arith, h))

-- sending for approval
pub Evolves-submit : (x : EventRow) → is_submittable x.status ≡ true → Evolves x (submit_row x)
Evolves-submit x h = record {
  id = refl;
  organizer_id = refl;
  ticket_model = refl;
  status = (submittable_moves x.status h).0;
  kept = inl (submittable_moves x.status h).1;
}

written_same : {A : Type 0} (o : Field A) (old : A) → is_given o ≡ false → written o old ≡ old
written_same left_out old h = refl
written_same cleared old h = refl
written_same (set_to a) old h = absurd (ground (arith, h))

written_or_none_same :
    {A : Type 0} (o : Field A) (old : Option A) → is_given o ≡ false → written_or_none o old ≡ old
written_or_none_same left_out old h = refl
written_or_none_same cleared old h = absurd (ground (arith, h))
written_or_none_same (set_to a) old h = absurd (ground (arith, h))

written_time_same :
    (o : Field Millis) (old : Millis) → is_given o ≡ false → written_time o old ≡ old
written_time_same left_out old h = refl
written_time_same cleared old h = absurd (ground (arith, h))
written_time_same (set_to a) old h = absurd (ground (arith, h))

IsFrozen-patch :
    (x : EventRow) (dto : UpdateEventDto)
    → has_disallowed_keys dto ≡ false
    → IsFrozen x (patch_event dto x)
IsFrozen-patch x dto h = record {
  title = written_same dto.title x.title (ground (arith, h));
  category = written_or_none_same dto.category x.category (ground (arith, h));
  start_time = written_time_same dto.start_time x.start_time (ground (arith, h));
  end_time = written_time_same dto.end_time x.end_time (ground (arith, h));
  venue = written_or_none_same dto.venue x.venue (ground (arith, h));
  max_tickets_per_user =
      written_same dto.max_tickets_per_user x.max_tickets_per_user (ground (arith, h));
}

-- an update that the status of the event allows
pub Evolves-patch :
    (x : EventRow) (dto : UpdateEventDto) → IsAllowed x dto → Evolves x (patch_event dto x)
Evolves-patch x dto allowed = record {
  id = refl;
  organizer_id = refl;
  ticket_model = refl;
  status = stay;
  kept = elim allowed [
    | while_on_sale sold texts ↦ inr (IsFrozen-patch x dto (IsTextsOnly-tests dto texts), inl sold)
    | in_preparation early ↦ inl early
  ];
}
