-- ===== src/Queue/WaitingRoom.antt =====
-- queue/adapters/prisma-waiting-room.adapter.ts: the waiting rooms that are open.
use kltn_high_concurrency_co.Prelude.{ℕ, Bool, Option, none, some, List, map, ◌==◌, if◌then◌else◌}
use kltn_high_concurrency_co.Common.Ids.{EventId}
use kltn_high_concurrency_co.Common.Exception.{ok}
use kltn_high_concurrency_co.Common.Action.{Action}
use kltn_high_concurrency_co.Prisma.{Table}
use kltn_high_concurrency_co.Queue.Ports.{WaitingRoomConfig, WaitingRoomPort}

-- `model WaitingRoom` of prisma/schema.prisma
pub record WaitingRoomRow : Type 0 where
  pub event_id : EventId
  pub is_open : Bool
  pub max_concurrent : ℕ
  pub booking_window : ℕ

-- An event has one room.
abbrev pub same_event : WaitingRoomRow → WaitingRoomRow → Bool
same_event r s = r.event_id == s.event_id

abbrev pub config_of : WaitingRoomRow → WaitingRoomConfig
config_of row = record {
  event_id = row.event_id;
  max_concurrent = row.max_concurrent;
  booking_window = row.booking_window;
}

module _ (T : Table WaitingRoomRow same_event) where
  unfoldable pub get_open_room : EventId → Action T.State (Option WaitingRoomConfig)
  get_open_room event_id s = elim (T.find_first (λ row. row.event_id == event_id) s) [
    | none ↦ (ok none, s)
    | some row ↦ (ok (if row.is_open then some (config_of row) else none), s)
  ]

  unfoldable pub list_open_rooms : Action T.State (List WaitingRoomConfig)
  list_open_rooms s = (ok (map config_of (T.find_many (λ row. row.is_open) s)), s)

  abbrev pub prisma_waiting_room_adapter : WaitingRoomPort T.State
  prisma_waiting_room_adapter = record {
    get_open_room = get_open_room;
    list_open_rooms = list_open_rooms;
  }
