-- ===== src/SeatLock/Ports.antt =====
-- seat-lock/domain/seat-lock.entity.ts and seat-lock/application/ports: the entity and the two ports
-- of the seat-lock use cases.
use kltn_high_concurrency_co.Prelude.{ℕ, Bool, Option}
use kltn_high_concurrency_co.Common.Ids.{UserId, EventId, SeatId, RowId, Millis}
use kltn_high_concurrency_co.Common.Action.{Action}

pub data SeatLockStatus : Type 0 where
  active released expired : SeatLockStatus

pub record SeatLockEntity : Type 0 where
  pub id : Option RowId
  pub seat_id : SeatId
  pub user_id : UserId
  pub event_id : Option EventId
  pub expires_at : Millis
  pub status : SeatLockStatus

pub data AcquireResult : Type 0 where
  acquired rehold seat_taken limit : AcquireResult

pub record AcquireInput : Type 0 where
  pub event_id : EventId
  pub seat_id : SeatId
  pub user_id : UserId
  pub ttl_seconds : ℕ
  pub max_per_user : ℕ

pub record ReleaseInput : Type 0 where
  pub event_id : EventId
  pub seat_id : SeatId
  pub user_id : UserId

pub record SeatLockExecutionPort (S : Type 0) : Type 0 where
  pub acquire : AcquireInput → Action S AcquireResult
  pub release : ReleaseInput → Action S Bool

pub record SeatLockAuditPort (S : Type 0) : Type 0 where
  pub record_acquired : SeatLockEntity → Action S SeatLockEntity
  pub record_released : SeatId → UserId → Action S (Unit {0})
  pub find_active : SeatId → UserId → Action S (Option SeatLockEntity)
