-- ===== src/SeatLock/UseCases.antt =====
-- seat-lock/application: the two use cases, over any implementation of their ports.
use kltn_high_concurrency_co.Prelude.{ℕ, Bool, true, false, Option, none, some}
use kltn_high_concurrency_co.Common.Ids.{UserId, EventId, SeatId, RowId, Millis}
use kltn_high_concurrency_co.Common.Exception.{
  seat_taken_error, ticket_limit_reached_error, http_exception, forbidden,
}
use kltn_high_concurrency_co.Common.Action.{
  Action, return, raise, ◌>>=◌, try_catch, on_first, on_second,
}
use kltn_high_concurrency_co.SeatLock.Ports.{
  SeatLockEntity, AcquireResult, acquired, rehold, seat_taken, limit, AcquireInput, ReleaseInput,
  SeatLockExecutionPort, SeatLockAuditPort,
}
use kltn_high_concurrency_co.SeatLock.Audit.{new_active}

pub record LockSeatInput : Type 0 where
  pub user_id : UserId
  pub event_id : EventId
  pub seat_id : SeatId

pub record LockSeatOutput : Type 0 where
  pub lock_id : Option RowId
  pub seat_id : SeatId
  pub expires_at : Millis

abbrev pub default_ttl_seconds : ℕ
default_ttl_seconds = 900

abbrev pub output_of : SeatLockEntity → LockSeatOutput
output_of entity = record {
  lock_id = entity.id;
  seat_id = entity.seat_id;
  expires_at = entity.expires_at;
}

-- The request that the use case sends to the execution port.
abbrev pub acquire_input : ℕ → LockSeatInput → AcquireInput
acquire_input max_per_user input = record {
  event_id = input.event_id;
  seat_id = input.seat_id;
  user_id = input.user_id;
  ttl_seconds = default_ttl_seconds;
  max_per_user = max_per_user;
}

module _ {S A : Type 0} (execution : SeatLockExecutionPort S) (audit : SeatLockAuditPort A) where
  -- the end of `LockSeatUseCase.execute`: the audit row, and the answer without one
  unfoldable pub record_lock : LockSeatInput → Millis → Action (S × A) LockSeatOutput
  record_lock input now =
      let entity = new_active input.seat_id input.user_id input.event_id default_ttl_seconds now in
      try_catch
        (do persisted ← on_second (audit.record_acquired entity); return (output_of persisted))
        (λ e.
          return
            (record { lock_id = none; seat_id = entity.seat_id; expires_at = entity.expires_at }))

  -- an audit row that is there already is answered
  unfoldable pub answer_existing :
      LockSeatInput → Millis → Option SeatLockEntity → Action (S × A) LockSeatOutput
  unfolding record_lock
  answer_existing input now (some existing) = return (output_of existing)
  answer_existing input now none = record_lock input now

  unfoldable pub on_result :
      ℕ → LockSeatInput → Millis → AcquireResult → Action (S × A) LockSeatOutput
  unfolding answer_existing
  on_result max_per_user input now seat_taken = raise (seat_taken_error input.seat_id)
  on_result max_per_user input now limit =
      raise (ticket_limit_reached_error input.user_id max_per_user)
  on_result max_per_user input now rehold = do
    existing ← on_second (audit.find_active input.seat_id input.user_id)
    answer_existing input now existing
  on_result max_per_user input now acquired = record_lock input now

  -- `LockSeatUseCase.execute`; `max_per_user` is the configured MAX_SEATS_PER_USER.
  unfoldable pub lock_seat : ℕ → Millis → LockSeatInput → Action (S × A) LockSeatOutput
  unfolding on_result
  lock_seat max_per_user now input = do
    result ← on_first (execution.acquire (acquire_input max_per_user input))
    on_result max_per_user input now result

  unfoldable pub after_release : ReleaseInput → Bool → Action (S × A) (Unit {0})
  after_release input false = raise (http_exception forbidden none)
  after_release input true =
      try_catch (on_second (audit.record_released input.seat_id input.user_id)) (λ e. return tt)

  -- `ReleaseSeatUseCase.execute`
  unfoldable pub release_seat : ReleaseInput → Action (S × A) (Unit {0})
  unfolding after_release
  release_seat input = do
    released ← on_first (execution.release input)
    after_release input released
