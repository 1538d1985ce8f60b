-- ===== src/Tests/Organizers.antt =====
-- An organizer, an event and a ticket type for the tests.
use kltn_high_concurrency_co.Prelude.{none, some, false}
use kltn_high_concurrency_co.Catalog.{
  draft, approved_organizer, ProfileRow, EventRow, TicketTypeRow,
}

abbrev pub profile : ProfileRow
profile = record {
  id = 30;
  user_id = 5;
  org_name = "Live";
  description = none;
  logo_url = none;
  banner_url = none;
  website = none;
  contact_email = none;
  contact_phone = none;
  status = approved_organizer;
}

abbrev pub event : EventRow
event = record {
  id = 1;
  organizer_id = 30;
  title = "Concert";
  description = none;
  category = some "music";
  start_time = 1000000;
  end_time = 2000000;
  venue = some "Hall";
  banner_url = none;
  status = draft;
  ticket_model = none;
  max_tickets_per_user = 4;
}

abbrev pub standard : TicketTypeRow
standard = record {
  id = 70;
  event_id = 1;
  name = "Standard";
  price = 5000;
  quantity = 100;
  sold = 10;
  sale_start_time = 1000;
  sale_end_time = 9000;
  description = none;
  is_hidden = false;
}
