-- ===== src/SeatHold/Adapter.antt =====
-- order/application/ports/seat-hold.port.ts and order/adapters/redis-seat-hold.adapter.ts.
use kltn_high_concurrency_co.Prelude.{
  ℕ, zero, suc, ◌-◌, Bool, true, false, Option, none, some, List, [], ◌∷◌, ℤ, pos, ◌==◌,
  if◌then◌else◌, map, get_elem?,
}
use kltn_high_concurrency_co.Common.Ids.{UserId, EventId, SeatId}
use kltn_high_concurrency_co.Common.Exception.{ok}
use kltn_high_concurrency_co.Common.Action.{Action}
use kltn_high_concurrency_co.Redis.{Redis}
use kltn_high_concurrency_co.SeatLock.Adapter.{
  schema, LockKey, lock_key, user_set_key, event_set_key, release_lua, is_one,
}

pub record VerifyHeldResult : Type 0 where
  pub is_ok : Bool
  pub failed_seat_id : Option SeatId

pub record SeatHoldPort (S : Type 0) : Type 0 where
  pub verify_held : EventId → List SeatId → UserId → Action S VerifyHeldResult
  pub extend_hold : EventId → List SeatId → UserId → ℕ → Action S Bool
  pub release_hold : EventId → SeatId → UserId → Action S (Unit {0})

abbrev pub lock_keys : EventId → List SeatId → List LockKey
lock_keys event_id seat_ids = map (lock_key event_id) seat_ids

abbrev pub verify_result : List SeatId → ℕ → VerifyHeldResult
verify_result seat_ids zero = record { is_ok = true; failed_seat_id = none }
verify_result seat_ids (suc code) = record {
  is_ok = false;
  failed_seat_id = get_elem? seat_ids (suc code - 1);
}

module _ (R : Redis schema) where
  -- `not owner or owner ~= ARGV[1]`
  abbrev pub not_owned : LockKey → UserId → R.State → Bool
  not_owned key user s = elim (R.get key s) [
    | none ↦ true
    | some owner ↦ if owner == user then false else true
  ]

  -- VERIFY_LUA, from index i
  unfoldable pub verify_lua : ℕ → List LockKey → UserId → R.State → ℕ
  verify_lua i [] user s = 0
  verify_lua i (key ∷ keys) user s =
      if not_owned key user s then i else verify_lua (suc i) keys user s

  -- EXTEND_LUA: the loop that verifies, and the loop that resets the time
  unfoldable pub any_lost : List LockKey → UserId → R.State → Bool
  any_lost [] user s = false
  any_lost (key ∷ keys) user s = if not_owned key user s then true else any_lost keys user s

  unfoldable pub expire_each : List LockKey → ℕ → R.State → R.State
  expire_each [] ttl s = s
  expire_each (key ∷ keys) ttl s = expire_each keys ttl (R.expire key ttl s)

  unfoldable pub extend_lua : List LockKey → UserId → ℕ → R.State → ℤ × R.State
  extend_lua keys user ttl s =
      if any_lost keys user s then (pos 0, s) else (pos 1, expire_each keys ttl s)

  unfoldable pub verify_held : EventId → List SeatId → UserId → Action R.State VerifyHeldResult
  verify_held event_id seat_ids user_id s =
      (ok (verify_result seat_ids (verify_lua 1 (lock_keys event_id seat_ids) user_id s)), s)

  unfoldable pub extend_hold : EventId → List SeatId → UserId → ℕ → Action R.State Bool
  unfolding extend_lua
  extend_hold event_id seat_ids user_id ttl_seconds s =
      let (raw, s') = extend_lua (lock_keys event_id seat_ids) user_id ttl_seconds s in
      (ok (is_one raw), s')

  unfoldable pub release_hold : EventId → SeatId → UserId → Action R.State (Unit {0})
  unfolding release_lua
  release_hold event_id seat_id user_id s =
      let (raw, s') =
        release_lua R (lock_key event_id seat_id) (user_set_key event_id user_id)
          (event_set_key event_id) user_id seat_id s in
      (ok tt, s')

  abbrev pub redis_seat_hold_adapter : SeatHoldPort R.State
  redis_seat_hold_adapter = record {
    verify_held = verify_held;
    extend_hold = extend_hold;
    release_hold = release_hold;
  }
