-- ===== src/SeatLock/Adapter.antt =====
-- seat-lock/adapters/redis-seat-lock.adapter.ts: the two Lua scripts and the adapter round them.
use kltn_high_concurrency_co.Prelude.{
  ℕ, zero, suc, Bool, true, false, ◌&&◌, none, some, ℤ, pos, negsuc, ◌==◌, leb, if◌then◌else◌,
}
use kltn_high_concurrency_co.Common.Ids.{UserId, EventId, SeatId}
use kltn_high_concurrency_co.Common.Exception.{Result, ok, throw, error}
use kltn_high_concurrency_co.Common.Action.{Action}
use kltn_high_concurrency_co.Redis.Commands.{Schema}
use kltn_high_concurrency_co.Redis.{Redis}
use kltn_high_concurrency_co.SeatLock.Ports.{
  AcquireResult, acquired, rehold, seat_taken, limit, AcquireInput, ReleaseInput,
  SeatLockExecutionPort,
}

-- `lock:event:{eventId}:seat:{seatId}`
pub data LockKey : Type 0 where
  lock_key : EventId → SeatId → LockKey

-- `held:event:{eventId}:user:{userId}` and `held:event:{eventId}`
pub data HeldKey : Type 0 where
  user_set_key : EventId → UserId → HeldKey
  event_set_key : EventId → HeldKey

abbrev pub same_lock : LockKey → LockKey → Bool
same_lock (lock_key e s) (lock_key e' s') = e == e' && s == s'

abbrev pub same_held : HeldKey → HeldKey → Bool
same_held (user_set_key e u) (user_set_key e' u') = e == e' && u == u'
same_held (user_set_key e u) (event_set_key e') = false
same_held (event_set_key e) (user_set_key e' u') = false
same_held (event_set_key e) (event_set_key e') = e == e'

-- A lock's value is the id of the user who holds the seat; no sorted sets are used.
abbrev pub schema : Schema
schema = record {
  StringKey = LockKey;
  SetKey = HeldKey;
  QueueKey = ⊥;
  Value = UserId;
  same_string = same_lock;
  same_set = same_held;
  same_queue = λ a b. true;
  to_count = λ v. v;
  of_count = λ n. n;
}

-- the four codes, and the `throw` for any other
abbrev pub decode_acquire : ℤ → Result AcquireResult
decode_acquire (pos (suc zero)) = ok acquired
decode_acquire (pos (suc (suc zero))) = ok rehold
decode_acquire (negsuc zero) = ok seat_taken
decode_acquire (negsuc (suc zero)) = ok limit
decode_acquire _ = throw error

abbrev pub is_one : ℤ → Bool
is_one (pos (suc zero)) = true
is_one _ = false

module _ (R : Redis schema) where
  -- ACQUIRE_LUA
  unfoldable pub acquire_lua :
      LockKey → HeldKey → HeldKey → UserId → ℕ → ℕ → SeatId → R.State → ℤ × R.State
  acquire_lua lock user_set event_set user ttl max seat s = elim (R.get lock s) [
    | some owner ↦ (if owner == user then pos 2 else negsuc 0, s)
    | none ↦
        if leb max (R.scard user_set s)
        then (negsuc 1, s)
        else (pos 1, R.sadd event_set seat (R.sadd user_set seat (R.set_ex lock user ttl s)))
  ]

  -- RELEASE_LUA
  unfoldable pub release_lua : LockKey → HeldKey → HeldKey → UserId → SeatId → R.State → ℤ × R.State
  release_lua lock user_set event_set user seat s = elim (R.get lock s) [
    | none ↦ (pos 0, s)
    | some owner ↦
        if owner == user
        then (pos 1, R.srem event_set seat (R.srem user_set seat (R.del lock s)))
        else (pos 0, s)
  ]

  unfoldable pub acquire : AcquireInput → Action R.State AcquireResult
  unfolding acquire_lua
  acquire input s =
      let (raw, s') =
        acquire_lua (lock_key input.event_id input.seat_id)
          (user_set_key input.event_id input.user_id) (event_set_key input.event_id) input.user_id
          input.ttl_seconds input.max_per_user input.seat_id s in
      (decode_acquire raw, s')

  unfoldable pub release : ReleaseInput → Action R.State Bool
  unfolding release_lua
  release input s =
      let (raw, s') =
        release_lua (lock_key input.event_id input.seat_id)
          (user_set_key input.event_id input.user_id) (event_set_key input.event_id) input.user_id
          input.seat_id s in
      (ok (is_one raw), s')

  abbrev pub redis_seat_lock_adapter : SeatLockExecutionPort R.State
  redis_seat_lock_adapter = record { acquire = acquire; release = release }
