-- ===== src/Queue/UseCases.antt =====
-- queue/application, queue/queue.controller.ts and queue/queue.admission.scheduler.ts: the use cases
-- of the waiting room over any implementation of their ports.
use kltn_high_concurrency_co.Prelude.{
  ℕ, ◌+◌, ◌-◌, ◌*◌, ◌/◌, Bool, true, false, Option, none, some, List, [], ◌∷◌, ℤ, pos, negsuc,
  if◌then◌else◌, ◌==◌,
}
use kltn_high_concurrency_co.Common.Ids.{UserId, EventId, Millis}
use kltn_high_concurrency_co.Common.Exception.{
  Exception, Result, ok, throw, queue_closed_error, http_exception, unprocessable_entity, ErrorCode,
}
use kltn_high_concurrency_co.Common.Action.{
  Action, return, raise, ◌>>=◌, ◌>>◌, try_catch, on_first, on_second,
}
use kltn_high_concurrency_co.Queue.Ports.{QueueStorePort, WaitingRoomConfig, WaitingRoomPort, issue}

-- A JavaScript number that a division may make infinite, or no number.
pub data Number : Type 0 where
  finite : ℕ → Number
  infinity nan : Number

pub record JoinQueueOutput : Type 0 where
  pub position : ℕ
  pub estimated_wait_sec : Number

-- Math.ceil(position / max) * window, for a position above zero
unfoldable pub estimated_wait : ℕ → ℕ → ℕ → Number
estimated_wait position max window =
    if max == 0
    then (if window == 0 then nan else infinity)
    else finite ((position + (max - 1)) / max * window)

pub data CheckTurnOutput : Type 0 where
  admitted : Millis → CheckTurnOutput
  waits : ℕ → CheckTurnOutput

-- `status.rank >= 0 ? status.rank + 1 : 0`
abbrev pub position_of : ℤ → ℕ
position_of (pos rank) = rank + 1
position_of (negsuc n) = 0

module _ {S A : Type 0} (store : QueueStorePort S) (rooms : WaitingRoomPort A) where
  unfoldable pub join_room :
      UserId → EventId → Option WaitingRoomConfig → Action (S × A) JoinQueueOutput
  join_room user_id event_id none = raise (queue_closed_error event_id)
  join_room user_id event_id (some room) = do
    joined ← on_first (store.join event_id user_id)
    return (record {
      position = joined.rank + 1;
      estimated_wait_sec = estimated_wait (joined.rank + 1) room.max_concurrent room.booking_window;
    })

  -- `JoinQueueUseCase.execute`
  unfoldable pub join_queue : UserId → EventId → Action (S × A) JoinQueueOutput
  unfolding join_room
  join_queue user_id event_id = do
    room ← on_second (rooms.get_open_room event_id)
    join_room user_id event_id room

  unfoldable pub admit_room : Option WaitingRoomConfig → EventId → Action (S × A) (List UserId)
  admit_room none event_id = return []
  admit_room (some room) event_id = on_first (
      store.admit (record {
        event_id = event_id;
        cap = room.max_concurrent;
        ttl_seconds = room.booking_window;
      }))

  -- `AdmissionUseCase.admitForEvent`
  unfoldable pub admit_for_event : EventId → Action (S × A) (List UserId)
  unfolding admit_room
  admit_for_event event_id = do
    room ← on_second (rooms.get_open_room event_id)
    admit_room room event_id

  unfoldable pub admit_each : List WaitingRoomConfig → Action (S × A) (Unit {0})
  admit_each [] = return tt
  admit_each (room ∷ rest) = do admit_for_event room.event_id; admit_each rest

  -- `AdmissionUseCase.execute`
  unfoldable pub admission : Action (S × A) (Unit {0})
  admission = do open_rooms ← on_second rooms.list_open_rooms; admit_each open_rooms

  -- `QueueAdmissionScheduler.tick`: what a cycle throws is logged, and a tick that falls into a
  -- running cycle does nothing. The flag is put back in either case.
  unfoldable pub tick : Action (Bool × (S × A)) (Unit {0})
  tick (true, s) = (ok tt, (true, s))
  tick (false, s) = let done = try_catch admission (λ err. return tt) s in (done.0, (false, done.1))

-- `CheckTurnUseCase.execute`
unfoldable pub check_turn :
    {S : Type 0} → QueueStorePort S → Millis → UserId → EventId → Action S CheckTurnOutput
check_turn store now user_id event_id = do
  status ← store.get_status event_id user_id
  return (
      if status.admitted
      then admitted (issue user_id event_id status.ttl_seconds now).expires_at
      else waits (position_of status.rank))

-- `QueueController.join`
abbrev pub join_error : {A : Type 0} → Exception → Result A
join_error (queue_closed_error event_id) =
    throw (http_exception unprocessable_entity (some ErrorCode.queue_closed))
join_error err = throw err
