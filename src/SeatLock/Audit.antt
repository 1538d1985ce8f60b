-- ===== src/SeatLock/Audit.antt =====
-- seat-lock/adapters/prisma-seat-lock-audit.adapter.ts and `SeatLockEntity`: the audit rows of seat
-- locks. The clock and the id that the database draws come in as arguments.
use kltn_high_concurrency_co.Prelude.{
  ℕ, ◌+◌, ◌*◌, Bool, true, false, ◌&&◌, Option, none, some, ◌==◌,
}
use kltn_high_concurrency_co.Common.Ids.{UserId, EventId, SeatId, RowId, Millis}
use kltn_high_concurrency_co.Common.Exception.{ok, throw, error}
use kltn_high_concurrency_co.Common.Action.{Action}
use kltn_high_concurrency_co.Prisma.{done, p2002, rejected, Table}
use kltn_high_concurrency_co.SeatLock.Ports.{
  SeatLockStatus, active, released, SeatLockEntity, SeatLockAuditPort,
}

-- `model SeatLock` of prisma/schema.prisma
pub record SeatLockRow : Type 0 where
  pub id : RowId
  pub seat_id : SeatId
  pub user_id : UserId
  pub locked_at : Millis
  pub expires_at : Millis
  pub released_at : Option Millis
  pub status : SeatLockStatus

-- No two columns of the table are unique but the id, which the database draws.
abbrev pub no_clash : SeatLockRow → SeatLockRow → Bool
no_clash r s = false

unfoldable pub new_active : SeatId → UserId → EventId → ℕ → Millis → SeatLockEntity
new_active seat_id user_id event_id ttl_seconds now = record {
  id = none;
  seat_id = seat_id;
  user_id = user_id;
  event_id = some event_id;
  expires_at = now + ttl_seconds * 1000;
  status = active;
}

-- The empty event id that `findActive` writes is `none`.
abbrev pub from_persistence : SeatLockRow → SeatLockEntity
from_persistence row = record {
  id = some row.id;
  seat_id = row.seat_id;
  user_id = row.user_id;
  event_id = none;
  expires_at = row.expires_at;
  status = active;
}

abbrev pub is_active : SeatLockStatus → Bool
is_active active = true
is_active _ = false

-- where: { seatId, userId, status: 'ACTIVE' }
abbrev pub active_for : SeatId → UserId → SeatLockRow → Bool
active_for seat_id user_id row =
    row.seat_id == seat_id && row.user_id == user_id && is_active row.status

abbrev pub release_row : Millis → SeatLockRow → SeatLockRow
release_row now row = record row { status = released; released_at = some now }

abbrev pub acquired_row : RowId → Millis → SeatLockEntity → SeatLockRow
acquired_row fresh now entity = record {
  id = fresh;
  seat_id = entity.seat_id;
  user_id = entity.user_id;
  locked_at = now;
  expires_at = entity.expires_at;
  released_at = none;
  status = active;
}

module _ (T : Table SeatLockRow no_clash) (fresh : RowId) (now : Millis) where
  unfoldable pub record_acquired : SeatLockEntity → Action T.State SeatLockEntity
  record_acquired entity s = elim (T.create (acquired_row fresh now entity) s) [
    | done t ↦ (ok (record entity { id = some fresh }), t)
    | p2002 ↦ (throw error, s)
    | rejected ↦ (throw error, s)
  ]

  unfoldable pub record_released : SeatId → UserId → Action T.State (Unit {0})
  record_released seat_id user_id s =
      elim (T.update_many (active_for seat_id user_id) (release_row now) s) [
        | none ↦ (throw error, s)
        | some (n, t) ↦ (ok tt, t)
      ]

  unfoldable pub find_active : SeatId → UserId → Action T.State (Option SeatLockEntity)
  find_active seat_id user_id s =
      elim (T.find_latest (active_for seat_id user_id) (λ row. row.locked_at) s) [
        | none ↦ (ok none, s)
        | some row ↦ (ok (some (from_persistence row)), s)
      ]

  abbrev pub prisma_seat_lock_audit_adapter : SeatLockAuditPort T.State
  prisma_seat_lock_audit_adapter = record {
    record_acquired = record_acquired;
    record_released = record_released;
    find_active = find_active;
  }
