-- ===== src/Tests/Concerts.antt =====
-- Events at concrete inputs.
use kltn_high_concurrency_co.Prelude.{
  ◌≡◌, ◌⊎◌, refl, true, false, none, some, List, [], ◌∷◌, All, HasKeys, any,
}
use kltn_high_concurrency_co.Common.Exception.{Exception, ok, not_found}
use kltn_high_concurrency_co.Common.AuditLog.{AuditRow, never_same}
use kltn_high_concurrency_co.Prisma.{Table}
use kltn_high_concurrency_co.Prisma.Reference.{reference}
use kltn_high_concurrency_co.Catalog.{
  active, ProfileRow, EventRow, TicketTypeRow, ZoneRow, same_user, same_event_id, same_type_id,
  same_zone_id, plain, left_out, set_to,
}
use kltn_high_concurrency_co.Events.{draft_action, CreateEventDto, UpdateEventDto}
use kltn_high_concurrency_co.Events.Guards.{IsStopped, IsDone, update-guards}
use kltn_high_concurrency_co.Events.History.{
  event_key, IsHistory, Call, create_call, update_call, submit_call, run, run-IsHistory,
}
use kltn_high_concurrency_co.Events.Listing.{
  PublicDetail, get_public_detail, get_public_detail-shown,
}
use kltn_high_concurrency_co.Tests.Organizers.{profile, event, standard}

abbrev profiles : Table ProfileRow same_user
profiles = reference ProfileRow same_user

abbrev events : Table EventRow same_event_id
events = reference EventRow same_event_id

abbrev audit_log : Table AuditRow never_same
audit_log = reference AuditRow never_same

abbrev ticket_types : Table TicketTypeRow same_type_id
ticket_types = reference TicketTypeRow same_type_id

abbrev zones : Table ZoneRow same_zone_id
zones = reference ZoneRow same_zone_id

abbrev known : List ProfileRow
known = profile ∷ []

abbrev planned : List EventRow
planned = event ∷ []

abbrev no_audit : List AuditRow
no_audit = []

abbrev second_event : CreateEventDto
second_event = record {
  title = "Encore";
  description = none;
  category = none;
  start_time = 3000000;
  end_time = 4000000;
  venue = none;
  banner_url = none;
  max_tickets_per_user = none;
  action = some draft_action;
}

abbrev new_title : UpdateEventDto
new_title = record {
  title = set_to "Open air";
  description = left_out;
  category = left_out;
  start_time = left_out;
  end_time = left_out;
  venue = left_out;
  banner_url = left_out;
  max_tickets_per_user = left_out;
}

-- An event is created, the first one gets a new title and is sent for approval.
abbrev season : List (Call profiles)
season =
    create_call known 5 2 second_event
    ∷ update_call known 5 1 new_title
    ∷ submit_call known 5 1
    ∷ []

planned-HasKeys : HasKeys event_key planned
unfolding any
planned-HasKeys = (refl, tt)

run-IsHistory_example :
    HasKeys event_key (run profiles events audit_log season (planned, no_audit)).0
    × IsHistory planned (run profiles events audit_log season (planned, no_audit)).0
run-IsHistory_example =
    run-IsHistory profiles events audit_log season (planned, no_audit) planned-HasKeys

update-guards_example :
    ((y : Exception) × IsStopped profiles events audit_log 5 1 new_title known planned no_audit y)
    ⊎ IsDone profiles events audit_log 5 1 new_title known planned no_audit
update-guards_example = update-guards profiles events audit_log 5 1 new_title known planned no_audit

abbrev on_sale : EventRow
on_sale = record event { status = active }

abbrev shown_events : List EventRow
shown_events = on_sale ∷ record event { id = 2 } ∷ []

abbrev sold_types : List TicketTypeRow
sold_types = standard ∷ record standard { id = 71; is_hidden = true } ∷ []

abbrev no_zones : List ZoneRow
no_zones = []

get_public_detail-shown_example :
    (get_public_detail events ticket_types zones 1 shown_events sold_types no_zones
      ≡ plain not_found)
    ⊎ ((d : PublicDetail) × (get_public_detail events ticket_types zones 1 shown_events sold_types
            no_zones
          ≡ ok d)
        × (d.event.id ≡ 1)
        × (d.event.status ≡ active)
        × All (λ type. (type.event_id ≡ 1) × (type.is_hidden ≡ false)) d.ticket_types)
get_public_detail-shown_example =
    get_public_detail-shown events ticket_types zones 1 shown_events sold_types no_zones
