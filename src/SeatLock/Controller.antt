-- ===== src/SeatLock/Controller.antt =====
-- seat-lock/seat-lock.controller.ts: HTTP answers of the two routes.
use kltn_high_concurrency_co.Prelude.{ℕ, ◌≡◌, ap, ◌∙◌, some, arith}
use kltn_high_concurrency_co.Common.Ids.{RowId, Millis}
use kltn_high_concurrency_co.Common.Exception.{
  Exception, Result, ok, throw, seat_taken_error, ticket_limit_reached_error, http_exception,
  conflict, unprocessable_entity, ErrorCode, catch,
}
use kltn_high_concurrency_co.Common.Action.{Action, try_catch}
use kltn_high_concurrency_co.Redis.{Redis}
use kltn_high_concurrency_co.Prisma.{Table}
use kltn_high_concurrency_co.SeatLock.Ports.{
  SeatLockExecutionPort, SeatLockAuditPort, AcquireResult, acquired, rehold, seat_taken, limit,
  ReleaseInput,
}
use kltn_high_concurrency_co.SeatLock.Adapter.{schema, redis_seat_lock_adapter}
use kltn_high_concurrency_co.SeatLock.Spec.{acquire_spec}
use kltn_high_concurrency_co.SeatLock.Audit.{SeatLockRow, no_clash, prisma_seat_lock_audit_adapter}
use kltn_high_concurrency_co.SeatLock.UseCases.{
  LockSeatInput, LockSeatOutput, acquire_input, lock_seat, release_seat,
}
use kltn_high_concurrency_co.SeatLock.Locking.{LockAnswer, lock-answers}

abbrev pub lock_error : {A : Type 0} → Exception → Result A
lock_error (seat_taken_error seat_id) = throw (http_exception conflict (some ErrorCode.seat_taken))
lock_error (ticket_limit_reached_error user_id max) =
    throw (http_exception unprocessable_entity (some ErrorCode.ticket_limit_reached))
lock_error err = throw err

module _ {S A : Type 0} (execution : SeatLockExecutionPort S) (audit : SeatLockAuditPort A) where
  -- POST :seatId/lock
  unfoldable pub lock_route : ℕ → Millis → LockSeatInput → Action (S × A) LockSeatOutput
  lock_route max now input =
      try_catch (lock_seat execution audit max now input) (λ err s. (lock_error err, s))

  -- DELETE :seatId/lock
  unfoldable pub release_route : ReleaseInput → Action (S × A) (Unit {0})
  release_route input = release_seat execution audit input

-- The status that the client sees; a successful call has the route's own.
abbrev pub status_of : {A : Type 0} → ℕ → Result A → ℕ
status_of success (ok a) = success
status_of success (throw e) = catch e

abbrev pub lock_status : AcquireResult → ℕ
lock_status acquired = 200
lock_status rehold = 200
lock_status seat_taken = 409
lock_status limit = 422

abbrev handled : Result LockSeatOutput → Result LockSeatOutput
handled (ok a) = ok a
handled (throw e) = lock_error e

try_catch-handled :
    {S : Type 0} (m : Action S LockSeatOutput) (s : S)
    → (try_catch m (λ err s'. (lock_error err, s')) s).0 ≡ handled (m s).0
try_catch-handled m s = ground arith

handled-status :
    (max : ℕ) (now : Millis) (i : LockSeatInput) (r : AcquireResult) (a : Result LockSeatOutput)
    → LockAnswer max now i r a
    → status_of 200 (handled a) ≡ lock_status r
unfolding catch
handled-status max now i acquired a w = rw (w.1)
handled-status max now i rehold a w = rw (w.1)
handled-status max now i seat_taken a w = rw w
handled-status max now i limit a w = rw w

-- The status of a lock request is 200, 409 or 422, as the atomic specification of the locks
-- decides, on every server and every database: never 500.
pub lock_route-status :
    (R : Redis schema) (T : Table SeatLockRow no_clash) (fresh : RowId) (now : Millis) (max : ℕ)
    (i : LockSeatInput) (s : R.State) (t : T.State)
    → status_of 200
        (lock_route
          (redis_seat_lock_adapter R)
          (prisma_seat_lock_audit_adapter T fresh now)
          max
          now
          i
          (s, t)).0
      ≡ lock_status (acquire_spec (acquire_input max i) (R.view s)).0
unfolding lock_route
lock_route-status R T fresh now max i s t =
    let m =
      lock_seat (redis_seat_lock_adapter R) (prisma_seat_lock_audit_adapter T fresh now) max now
        i in
    ap (status_of 200) (try_catch-handled m (s, t))
    ∙ handled-status max now i (acquire_spec (acquire_input max i) (R.view s)).0 (m (s, t)).0
        (lock-answers R T fresh now max i s t).0
