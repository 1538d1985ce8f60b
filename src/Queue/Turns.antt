-- ===== src/Queue/Turns.antt =====
-- The waiting room as its users and the scheduler see it.
use kltn_high_concurrency_co.Prelude.{
  ℕ, ◌+◌, ◌-◌, ◌*◌, ◌/◌, ◌<◌, ◌≤◌, ◌≡◌, refl, Bool, true, false, Option, none, some, [], ◌∷◌, ◌++◌,
  arith, length, find, Option-cases, inl, inr, ◌==◌,
}
use kltn_high_concurrency_co.Common.Ids.{UserId, EventId, Millis}
use kltn_high_concurrency_co.Common.Exception.{ok, throw, queue_closed_error, Result-cases}
use kltn_high_concurrency_co.Common.Action.{Action}
use kltn_high_concurrency_co.Redis.Commands.{score_of, rank_of}
use kltn_high_concurrency_co.Redis.{Redis}
use kltn_high_concurrency_co.Prisma.{Table}
use kltn_high_concurrency_co.Queue.Ports.{QueueStorePort, WaitingRoomPort}
use kltn_high_concurrency_co.Queue.Adapter.{
  schema, token_key, queue_key, redis_queue_store_adapter, get_status,
}
use kltn_high_concurrency_co.Queue.WaitingRoom.{
  WaitingRoomRow, same_event, get_open_room, prisma_waiting_room_adapter,
}
use kltn_high_concurrency_co.Queue.UseCases.{
  JoinQueueOutput, estimated_wait, finite, admitted, waits, join_queue, join_room, check_turn, tick,
  admission,
}
use kltn_high_concurrency_co.Queue.Spec.{waiting, users, has_token}
use kltn_high_concurrency_co.Queue.Cycle.{IsAdmitted}
use kltn_high_concurrency_co.Queue.Fifo.{IsQueue, join-new}

-- The position of a user among those who wait, 0 for one who does not wait.
abbrev pub place : Option ℕ → ℕ
place none = 0
place (some r) = r + 1

module _ (R : Redis schema) (now : Millis) (e : EventId) (u : UserId) (s : R.State) where
  -- A user who counts as active and has a token with `ttl` seconds left, above zero, is told that
  -- the turn has come and that it ends then.
  pub check_turn-admitted :
      (ttl : ℕ)
      → 0 < ttl
      → IsAdmitted e ttl (R.view s) u
      → check_turn (redis_queue_store_adapter R) now u e s ≡ (ok (admitted (now + ttl * 1000)), s)
  unfolding check_turn get_status
  check_turn-admitted ttl p a = ground (arith, R.ttl_lem (token_key e u) s, a.1)

  -- A user without a live token is told the place in the queue, 0 outside it, and nothing
  -- changes.
  pub check_turn-waits :
      has_token e u (R.view s) ≡ false
      → check_turn (redis_queue_store_adapter R) now u e s
        ≡ (ok (waits (place (rank_of u (waiting e (R.view s))))), s)
  unfolding check_turn get_status
  check_turn-waits gone = ground (arith, R.ttl_lem (token_key e u) s, R.zrank_lem (queue_key e) u s)

module _ (R : Redis schema) (T : Table WaitingRoomRow same_event) where
  abbrev pub join_queue_here : UserId → EventId → Action (R.State × T.State) JoinQueueOutput
  join_queue_here = join_queue (redis_queue_store_adapter R) (prisma_waiting_room_adapter T)

  abbrev pub room_of : EventId → T.State → Option WaitingRoomRow
  room_of e t = find (λ row. row.event_id == e) (T.rows t)

  -- An event without a room and one whose room is closed refuse every user, and nothing changes.
  pub join_queue-closed :
      (u : UserId) (e : EventId) (s : R.State) (t : T.State)
      → ((row : WaitingRoomRow) → room_of e t ≡ some row → row.is_open ≡ false)
      → join_queue_here u e (s, t) ≡ (throw (queue_closed_error e), (s, t))
  unfolding join_queue get_open_room join_room
  join_queue-closed u e s t closed = elim (Option-cases (room_of e t)) [
    | inl gone ↦ ground (arith, T.find_first_lem (λ r. r.event_id == e) t)
    | inr (row, found) ↦ ground (arith, T.find_first_lem (λ r. r.event_id == e) t, closed row found)
  ]

  -- An open room takes a user that does not wait yet, on a server whose queue has its scores
  -- below the counter: the user goes behind everybody who waits, and is answered the number of
  -- all that wait now, with the estimate for that position.
  pub join_queue-new :
      (u : UserId) (e : EventId) (s : R.State) (t : T.State) (row : WaitingRoomRow)
      → room_of e t ≡ some row
      → row.is_open ≡ true
      → IsQueue e (R.view s)
      → score_of u (waiting e (R.view s)) ≡ none
      → let position = length (waiting e (R.view s)) + 1 in
        ((join_queue_here u e (s, t)).0
          ≡ ok (record {
            position = position;
            estimated_wait_sec = estimated_wait position row.max_concurrent row.booking_window;
          }))
        × (users (waiting e (R.view (join_queue_here u e (s, t)).1.0))
            ≡ users (waiting e (R.view s)) ++ u ∷ [])
  unfolding join_queue get_open_room join_room
  join_queue-new u e s t row found opened v new =
      ground (arith, T.find_first_lem (λ r. r.event_id == e) t, join-new R e u s v new)

-- With at least one place the estimate is the booking window times the number of rounds, the least that lets
-- everybody up to the position in.
pub estimated_wait-rounds :
    (position max window : ℕ)
    → 0 < max
    → (rounds : ℕ) × (estimated_wait position max window ≡ finite (rounds * window))
      × (position ≤ rounds * max)
      × (rounds * max < position + max)
unfolding estimated_wait
estimated_wait-rounds position max window p =
    ((position + (max - 1)) / max, ground arith, ground arith, ground arith)

-- No tick throws, and each leaves the flag as it found it.
pub tick-flag :
    {S A : Type 0}
    → (store : QueueStorePort S) (rooms : WaitingRoomPort A) (running : Bool) (s : S × A)
    → ((tick store rooms (running, s)).0 ≡ ok tt) × ((tick store rooms (running, s)).1.0 ≡ running)
unfolding tick
tick-flag store rooms true s = (refl, refl)
tick-flag store rooms false s = elim (Result-cases (admission store rooms s).0) [
  | inl (a, e) ↦ rw e (refl, refl)
  | inr (err, e) ↦ rw e (refl, refl)
]
