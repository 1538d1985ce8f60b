-- ===== src/Tests/Rooms.antt =====
-- Waiting rooms at concrete inputs.
use kltn_high_concurrency_co.Prelude.{
  ℕ, ◌+◌, ◌*◌, ◌<◌, ◌≤◌, ◌≡◌, ◌⊎◌, refl, true, false, none, some, List, [], ◌∷◌, ◌++◌, arith,
  length, All, Distinct, mem, find,
}
use kltn_high_concurrency_co.Common.Ids.{UserId}
use kltn_high_concurrency_co.Common.Exception.{ok}
use kltn_high_concurrency_co.Redis.Commands.{score_of}
use kltn_high_concurrency_co.Redis.{Redis}
use kltn_high_concurrency_co.Redis.Reference.{reference}
use kltn_high_concurrency_co.Prisma.{Table}
use kltn_high_concurrency_co.Prisma.Reference
use kltn_high_concurrency_co.Queue.Ports.{AdmitInput}
use kltn_high_concurrency_co.Queue.Adapter.{
  schema, join, join_lua, enqueue, admit_lua, admit_loop, clean, get_status, admit,
}
use kltn_high_concurrency_co.Queue.Spec.{
  Rooms, admit_spec, clean_spec, waiting, users, active, has_token, join_spec, cycle, admit-refines,
}
use kltn_high_concurrency_co.Queue.Cycle.{IsAdmitted, admit-cycle}
use kltn_high_concurrency_co.Queue.History.{Call, joins, polls, admits, passes, step, run}
use kltn_high_concurrency_co.Queue.Capacity.{IsOrderly, run-at_most_cap}
use kltn_high_concurrency_co.Queue.Fifo.{IsQueue}
use kltn_high_concurrency_co.Queue.WaitingRoom.{WaitingRoomRow, same_event}
use kltn_high_concurrency_co.Queue.UseCases.{estimated_wait, finite}
use kltn_high_concurrency_co.Queue.Turns.{
  join_queue_here, room_of, join_queue-new, estimated_wait-rounds,
}

abbrev pub server : Redis schema
server = reference schema

abbrev rooms_table : Table WaitingRoomRow same_event
rooms_table = Reference.reference WaitingRoomRow same_event

abbrev pub nothing : Rooms
nothing = record { strings = λ k. none; sets = λ k. []; queues = λ k. [] }

abbrev cycle_input : AdmitInput
cycle_input = record { event_id = 1; cap = 1; ttl_seconds = 300 }

-- Two users join, one is admitted, a third joins.
abbrev evening : List Call
evening =
    joins 1 5
    ∷ joins 1 6
    ∷ admits cycle_input
    ∷ polls 1 5
    ∷ joins 1 7
    ∷ passes 30
    ∷ admits cycle_input
    ∷ []

nothing-IsOrderly : IsOrderly (λ e. 1) nothing
nothing-IsOrderly = record {
  distinct = λ e. tt;
  token_listed = λ e u h. ground arith;
  capped = λ e. omega arith;
}

-- User 5 waits.
abbrev pub one_waits : Rooms
one_waits = join_spec 1 5 nothing

one_waits-IsQueue : IsQueue 1 one_waits
unfolding join_spec
one_waits-IsQueue = record { bounded = ground arith; persistent = refl }

abbrev admitted_first : Rooms
admitted_first = (cycle cycle_input one_waits).1

abbrev first_user : List UserId
first_user = 5 ∷ []

first_user-Distinct : Distinct first_user
unfolding mem
first_user-Distinct = ground arith

tokens : All (λ u. has_token 1 u (run server nothing evening) ≡ true) first_user
unfolding run step join join_lua enqueue admit admit_lua admit_loop clean get_status mem
tokens = (refl, tt)

run-at_most_cap_example : length first_user ≤ 1
run-at_most_cap_example =
    run-at_most_cap server (λ e. 1) nothing evening 1 first_user (ground arith) (ground arith)
      nothing-IsOrderly first_user-Distinct tokens

admit-refines_example :
    ((admit server cycle_input one_waits).0 ≡ ok (cycle cycle_input one_waits).0)
    × ((admit server cycle_input one_waits).1 ≡ (cycle cycle_input one_waits).1)
admit-refines_example = admit-refines server cycle_input one_waits (omega arith)

admit-cycle_example :
    (us : List UserId) × ((admit server cycle_input one_waits).0 ≡ ok us)
    × (us ++ users (waiting 1 (admit server cycle_input one_waits).1) ≡ users (waiting 1 one_waits))
    × All (IsAdmitted 1 300 (admit server cycle_input one_waits).1) us
    × ((1 ≤ length (active 1 (admit server cycle_input one_waits).1))
        ⊎ (users (waiting 1 (admit server cycle_input one_waits).1) ≡ []))
admit-cycle_example = admit-cycle server cycle_input one_waits (omega arith)

six_new : score_of 6 (waiting 1 one_waits) ≡ none
unfolding join_spec
six_new = refl

let_in : IsAdmitted 1 300 admitted_first 5
unfolding join_spec admit_spec clean_spec mem
let_in = (refl, refl)

abbrev open_room : WaitingRoomRow
open_room = record { event_id = 1; is_open = true; max_concurrent = 1; booking_window = 300 }

abbrev closed_room : WaitingRoomRow
closed_room = record { event_id = 2; is_open = false; max_concurrent = 1; booking_window = 300 }

abbrev both_rooms : List WaitingRoomRow
both_rooms = open_room ∷ closed_room ∷ []

first_open : room_of server rooms_table 1 both_rooms ≡ some open_room
unfolding find
first_open = refl

join_queue-new_example :
    let position = length (waiting 1 one_waits) + 1 in
    ((join_queue_here server rooms_table 6 1 (one_waits, both_rooms)).0
      ≡ ok (record { position = position; estimated_wait_sec = estimated_wait position 1 300 }))
    × (users (waiting 1 (join_queue_here server rooms_table 6 1 (one_waits, both_rooms)).1.0)
        ≡ users (waiting 1 one_waits) ++ 6 ∷ [])
join_queue-new_example =
    join_queue-new server rooms_table 6 1 one_waits both_rooms open_room first_open refl
      one_waits-IsQueue six_new

estimated_wait-rounds_example :
    (rounds : ℕ) × (estimated_wait 7 3 300 ≡ finite (rounds * 300))
    × (7 ≤ rounds * 3)
    × (rounds * 3 < 7 + 3)
estimated_wait-rounds_example = estimated_wait-rounds 7 3 300 (omega arith)
