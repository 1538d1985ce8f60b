-- ===== src/Tests/Types.antt =====
-- Ticket types at concrete inputs.
use kltn_high_concurrency_co.Prelude.{List, [], ◌∷◌}
use kltn_high_concurrency_co.Common.Exception.{Exception}
use kltn_high_concurrency_co.Prisma.Reference.{reference}
use kltn_high_concurrency_co.Catalog.{
  ProfileRow, EventRow, TicketTypeRow, same_user, same_event_id, same_type_id, left_out, cleared,
  set_to,
}
use kltn_high_concurrency_co.Tests.Organizers.{profile, event, standard}
use kltn_high_concurrency_co.TicketTypes.{UpdateTicketTypeDto, Tables, Setting}

abbrev tables : Tables
tables = record {
  profiles = reference ProfileRow same_user;
  events = reference EventRow same_event_id;
  types = reference TicketTypeRow same_type_id;
}

abbrev setting : Setting tables
setting = record { profiles = profile ∷ []; events = event ∷ [] }

abbrev types : List TicketTypeRow
types = standard ∷ []

abbrev fewer : UpdateTicketTypeDto
fewer = record {
  name = left_out;
  price = left_out;
  quantity = set_to 50;
  sale_start_time = left_out;
  sale_end_time = left_out;
  description = cleared;
}
