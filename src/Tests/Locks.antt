-- ===== src/Tests/Locks.antt =====
-- The seat-lock use cases and routes at concrete inputs.
use kltn_high_concurrency_co.Prelude.{◌≡◌, none, List, []}
use kltn_high_concurrency_co.Redis.{Redis}
use kltn_high_concurrency_co.Redis.Reference.{reference}
use kltn_high_concurrency_co.Prisma.{Table}
use kltn_high_concurrency_co.Prisma.Reference
use kltn_high_concurrency_co.SeatLock.Adapter.{schema}
use kltn_high_concurrency_co.SeatLock.Audit.{SeatLockRow, no_clash}
use kltn_high_concurrency_co.SeatLock.Spec.{Holds, acquire_spec}
use kltn_high_concurrency_co.SeatLock.UseCases.{LockSeatInput, acquire_input}
use kltn_high_concurrency_co.SeatLock.Locking.{LockAnswer, lock, lock-answers}

abbrev server : Redis schema
server = reference schema

abbrev audit : Table SeatLockRow no_clash
audit = Reference.reference SeatLockRow no_clash

abbrev nothing : Holds
nothing = record { strings = λ k. none; sets = λ k. []; queues = λ k. [] }

abbrev no_rows : List SeatLockRow
no_rows = []

abbrev request : LockSeatInput
request = record { user_id = 5; event_id = 1; seat_id = 7 }

abbrev held : Holds
held = (acquire_spec (acquire_input 2 request) nothing).1

abbrev rival : LockSeatInput
rival = record { user_id = 6; event_id = 1; seat_id = 7 }

lock-answers_example :
    LockAnswer 2 1000 rival
      (acquire_spec (acquire_input 2 rival) held).0
      (lock server audit 40 1000 2 rival (held, no_rows)).0
    × ((lock server audit 40 1000 2 rival (held, no_rows)).1.0
        ≡ (acquire_spec (acquire_input 2 rival) held).1)
lock-answers_example = lock-answers server audit 40 1000 2 rival held no_rows
