-- ===== src/SeatLock/Locking.antt =====
-- What a lock request and a release request do on any server and any database.
use kltn_high_concurrency_co.Prelude.{
  ℕ, ◌+◌, ◌*◌, ◌≡◌, ◌∙◌, ◌⊎◌, sym, ap, refl, Bool, true, false, Option, none, some, arith,
  Option-cases, inl, inr, latest-fits,
}
use kltn_high_concurrency_co.Common.Ids.{UserId, SeatId, RowId, Millis}
use kltn_high_concurrency_co.Common.Exception.{
  Result, ok, throw, seat_taken_error, ticket_limit_reached_error, http_exception, forbidden,
}
use kltn_high_concurrency_co.Common.Action.{Action}
use kltn_high_concurrency_co.Redis.{Redis}
use kltn_high_concurrency_co.Prisma.{Table, Write-cases}
use kltn_high_concurrency_co.SeatLock.Ports.{
  SeatLockEntity, AcquireResult, acquired, rehold, seat_taken, limit, ReleaseInput,
}
use kltn_high_concurrency_co.SeatLock.Adapter.{schema, redis_seat_lock_adapter, acquire, release}
use kltn_high_concurrency_co.SeatLock.Spec.{
  acquire_spec, release_spec, acquire-refines, release-refines,
}
use kltn_high_concurrency_co.SeatLock.Audit.{
  SeatLockRow, no_clash, active_for, acquired_row, from_persistence, prisma_seat_lock_audit_adapter,
  record_acquired, find_active, record_released, new_active,
}
use kltn_high_concurrency_co.SeatLock.UseCases.{
  LockSeatInput, LockSeatOutput, acquire_input, lock_seat, release_seat, on_result, record_lock,
  output_of, after_release,
}

-- What a client is answered, by what the locks allow.
abbrev pub LockAnswer : ℕ → Millis → LockSeatInput → AcquireResult → Result LockSeatOutput → Type 0
LockAnswer max now i acquired r =
    (id : Option RowId) × (r
      ≡ ok (record { lock_id = id; seat_id = i.seat_id; expires_at = now + 900 * 1000 }))
LockAnswer max now i rehold r = (o : LockSeatOutput) × (r ≡ ok o) × (o.seat_id ≡ i.seat_id)
LockAnswer max now i seat_taken r = r ≡ throw (seat_taken_error i.seat_id)
LockAnswer max now i limit r = r ≡ throw (ticket_limit_reached_error i.user_id max)

module _ (R : Redis schema) (T : Table SeatLockRow no_clash) (fresh : RowId) (now : Millis) where
  -- The use cases over their two adapters.
  abbrev pub lock : ℕ → LockSeatInput → Action (R.State × T.State) LockSeatOutput
  lock max input =
      lock_seat (redis_seat_lock_adapter R) (prisma_seat_lock_audit_adapter T fresh now) max now
        input

  abbrev pub unlock : ReleaseInput → Action (R.State × T.State) (Unit {0})
  unlock input =
      release_seat (redis_seat_lock_adapter R) (prisma_seat_lock_audit_adapter T fresh now) input

  abbrev finish : ℕ → LockSeatInput → AcquireResult → Action (R.State × T.State) LockSeatOutput
  finish max i r =
      on_result (redis_seat_lock_adapter R) (prisma_seat_lock_audit_adapter T fresh now) max i now r

  abbrev entity : LockSeatInput → SeatLockEntity
  unfolding new_active
  entity i = new_active i.seat_id i.user_id i.event_id 900 now

  abbrev answer : LockSeatInput → Option RowId → LockSeatOutput
  answer i id = record { lock_id = id; seat_id = i.seat_id; expires_at = now + 900 * 1000 }

  record_lock-answers :
      (i : LockSeatInput) (s : R.State) (t : T.State)
      → let r =
          record_lock
            (redis_seat_lock_adapter R)
            (prisma_seat_lock_audit_adapter T fresh now)
            i
            now
            (s, t) in
        LockAnswer 0 now i acquired r.0 × (r.1.0 ≡ s)
  unfolding record_lock record_acquired new_active
  record_lock-answers i s t =
      elim (Write-cases
        (T.create (acquired_row fresh now (new_active i.seat_id i.user_id i.event_id 900 now)) t)) [
          | inl (t', e) ↦ ((some fresh, ground arith), ground arith)
          | inr (inl e) ↦ ((none, ground arith), ground arith)
          | inr (inr e) ↦ ((none, ground arith), ground arith)
        ]

  -- an audit row that is found is one of the seat
  find_active-cases :
      (x : SeatId) (u : UserId) (t : T.State)
      → (find_active T fresh now x u t ≡ (ok none, t))
        ⊎ ((o : SeatLockEntity) × (find_active T fresh now x u t ≡ (ok (some o), t))
            × (o.seat_id ≡ x))
  unfolding find_active
  find_active-cases x u t =
      let key : SeatLockRow → ℕ = λ row. row.locked_at in
      elim (Option-cases (T.find_latest (active_for x u) key t)) [
        | inl e ↦ inl (rw (e, find_active))
        | inr (row, e) ↦ inr (
          from_persistence row,
          rw (e, find_active),
          ground (
            arith,
            latest-fits (active_for x u) key (T.rows t) row
                (sym (T.find_latest_lem (active_for x u) key t) ∙ e),
          ),
        )
      ]

  -- the part of the call after `acquire` changes the locks no more
  finish-answers :
      (max : ℕ) (i : LockSeatInput) (r : AcquireResult) (s : R.State) (t : T.State)
      → LockAnswer max now i r (finish max i r (s, t)).0 × ((finish max i r (s, t)).1.0 ≡ s)
  unfolding on_result
  finish-answers max i seat_taken s t = (refl, refl)
  finish-answers max i limit s t = (refl, refl)
  finish-answers max i acquired s t = record_lock-answers i s t
  finish-answers max i rehold s t = elim (find_active-cases i.seat_id i.user_id t) [
    | inl e ↦ rw e (let ((id, a), b) = record_lock-answers i s t in ((answer i id, a, refl), b))
    | inr (o, e, x) ↦ rw e ((output_of o, refl, x), refl)
  ]

  -- A lock request answers what the locks allow, for every server, every database, whatever the
  -- audit table does: the seat, with the time 15 minutes ahead, when it is taken now; the seat when
  -- the user holds it already; SeatTakenError or TicketLimitReachedError otherwise. The locks
  -- afterwards are those of the atomic specification.
  pub lock-answers :
      (max : ℕ) (i : LockSeatInput) (s : R.State) (t : T.State)
      → LockAnswer max now i (acquire_spec (acquire_input max i) (R.view s)).0 (lock max i (s, t)).0
        × (R.view (lock max i (s, t)).1.0 ≡ (acquire_spec (acquire_input max i) (R.view s)).1)
  unfolding lock_seat
  lock-answers max i s t =
      let (got, held) = acquire-refines R (acquire_input max i) s (omega arith) in
      let s' = (acquire R (acquire_input max i) s).1 in
      let (a, same) = finish-answers max i (acquire_spec (acquire_input max i) (R.view s)).0 s' t in
      rw got (a, ap R.view same ∙ held)

  -- What a release is answered; one that is refused leaves the audit table alone.
  abbrev pub UnlockAnswer : T.State → Bool → Result (Unit {0}) → T.State → Type 0
  UnlockAnswer t true r t' = r ≡ ok tt
  UnlockAnswer t false r t' = (r ≡ throw (http_exception forbidden none)) × (t' ≡ t)

  after_release-answers :
      (i : ReleaseInput) (b : Bool) (s : R.State) (t : T.State)
      → let r =
          after_release
            (redis_seat_lock_adapter R)
            (prisma_seat_lock_audit_adapter T fresh now)
            i
            b
            (s, t) in
        UnlockAnswer t b r.0 r.1.1 × (r.1.0 ≡ s)
  unfolding after_release record_released
  after_release-answers i false s t = ((refl, refl), refl)
  after_release-answers i true s t = (ground arith, ground arith)

  -- A release request succeeds exactly when the user holds the seat, also if the audit table rejects
  -- its update; otherwise it is forbidden and changes neither the locks nor the audit table.
  pub unlock-answers :
      (i : ReleaseInput) (s : R.State) (t : T.State)
      → UnlockAnswer t (release_spec i (R.view s)).0 (unlock i (s, t)).0 (unlock i (s, t)).1.1
        × (R.view (unlock i (s, t)).1.0 ≡ (release_spec i (R.view s)).1)
  unfolding release_seat
  unlock-answers i s t =
      let (got, held) = release-refines R i s in
      let (a, same) = after_release-answers i (release_spec i (R.view s)).0 (release R i s).1 t in
      rw got (a, ap R.view same ∙ held)
