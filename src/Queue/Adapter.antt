-- ===== src/Queue/Adapter.antt =====
-- queue/adapters/redis-queue-store.adapter.ts: the three Lua scripts and the adapter round them.
use mathlib.Core.Option.{get_or}
use kltn_high_concurrency_co.Prelude.{
  ℕ, zero, suc, Bool, true, false, ◌&&◌, Option, none, some, List, [], ◌∷◌, ℤ, pos, negsuc,
  is_positive, ◌==◌, ltb, if◌then◌else◌,
}
use kltn_high_concurrency_co.Common.Ids.{UserId, EventId}
use kltn_high_concurrency_co.Common.Exception.{ok, throw, error}
use kltn_high_concurrency_co.Common.Action.{Action}
use kltn_high_concurrency_co.Redis.Commands.{Schema}
use kltn_high_concurrency_co.Redis.{Redis}
use kltn_high_concurrency_co.Queue.Ports.{JoinResult, QueueStatus, AdmitInput, QueueStorePort}

-- `queue:event:{eventId}:seq` and `token:event:{eventId}:user:{userId}`
pub data TokenKey : Type 0 where
  seq_key : EventId → TokenKey
  token_key : EventId → UserId → TokenKey

-- `active:event:{eventId}`
pub data ActiveKey : Type 0 where
  active_key : EventId → ActiveKey

-- `queue:event:{eventId}`
pub data WaitingKey : Type 0 where
  queue_key : EventId → WaitingKey

abbrev pub same_token : TokenKey → TokenKey → Bool
same_token (seq_key e) (seq_key e') = e == e'
same_token (seq_key e) (token_key e' u') = false
same_token (token_key e u) (seq_key e') = false
same_token (token_key e u) (token_key e' u') = e == e' && u == u'

abbrev pub same_active : ActiveKey → ActiveKey → Bool
same_active (active_key e) (active_key e') = e == e'

abbrev pub same_waiting : WaitingKey → WaitingKey → Bool
same_waiting (queue_key e) (queue_key e') = e == e'

-- A value is the counter of an event, or the '1' of a token.
abbrev pub schema : Schema
schema = record {
  StringKey = TokenKey;
  SetKey = ActiveKey;
  QueueKey = WaitingKey;
  Value = ℕ;
  same_string = same_token;
  same_set = same_active;
  same_queue = same_waiting;
  to_count = λ v. v;
  of_count = λ n. n;
}

abbrev pub cons_admitted :
    {S : Type 0} → UserId → Option (List UserId × S) → Option (List UserId × S)
cons_admitted u none = none
cons_admitted u (some (us, s)) = some (u ∷ us, s)

module _ (R : Redis schema) where
  -- JOIN_LUA: the part that adds the user, and the whole. A missing rank would read as 0.
  unfoldable pub enqueue : TokenKey → WaitingKey → UserId → R.State → R.State
  enqueue seq queue user s = elim (R.zscore queue user s) [
    | some score ↦ s
    | none ↦ let (n, s') = R.incr seq s in R.zadd queue n user s'
  ]

  unfoldable pub join_lua : TokenKey → WaitingKey → UserId → R.State → (ℕ × ℕ) × R.State
  unfolding enqueue
  join_lua seq queue user s =
      let s' = enqueue seq queue user s in
      ((get_or (R.zrank queue user s') 0, R.zcard queue s'), s')

  -- ADMIT_LUA: the loop that cleans the active set
  unfoldable pub clean : EventId → ActiveKey → List UserId → R.State → R.State
  clean e active [] s = s
  clean e active (m ∷ members) s =
      clean e active members (if R.exists (token_key e m) s then s else R.srem active m s)

  -- ADMIT_LUA: the loop that admits, on fuel; `none` means that the fuel ran out
  unfoldable pub admit_loop :
      ℕ → EventId → WaitingKey → ActiveKey → ℕ → ℕ → R.State → Option (List UserId × R.State)
  admit_loop zero e queue active cap ttl s = none
  admit_loop (suc fuel) e queue active cap ttl s =
      let popped = R.zpopmin queue s in
      let stop : Option (List UserId × R.State) = some ([], popped.1) in
      let next : Option (List UserId × R.State) = elim popped.0 [
        | none ↦ stop
        | some u ↦ cons_admitted u (
            admit_loop fuel e queue active cap ttl
              (R.sadd active u (R.set_ex (token_key e u) 1 ttl popped.1)))
      ] in
      if ltb (R.scard active s) cap then next else some ([], s)

  unfoldable pub admit_lua :
      ℕ → EventId → WaitingKey → ActiveKey → ℕ → ℕ → R.State → Option (List UserId × R.State)
  admit_lua fuel e queue active cap ttl s =
      admit_loop fuel e queue active cap ttl (clean e active (R.smembers active s) s)

  -- STATUS_LUA
  unfoldable pub status_lua : WaitingKey → TokenKey → UserId → R.State → ℤ × ℤ
  status_lua queue token user s =
      if is_positive (R.ttl token s)
      then (pos 1, R.ttl token s)
      else elim (R.zrank queue user s) [ none ↦ (pos 0, negsuc 0) | some rank ↦ (pos 0, pos rank) ]

  abbrev read_status : ℤ × ℤ → QueueStatus
  read_status (pos (suc zero), value) = record {
    admitted = true;
    ttl_seconds = value;
    rank = negsuc 0;
  }
  read_status (_, value) = record { admitted = false; ttl_seconds = negsuc 0; rank = value }

  unfoldable pub join : EventId → UserId → Action R.State JoinResult
  unfolding join_lua
  join event_id user_id s =
      let ((rank, total), s') = join_lua (seq_key event_id) (queue_key event_id) user_id s in
      (ok (record { rank = rank; total = total }), s')

  unfoldable pub get_status : EventId → UserId → Action R.State QueueStatus
  unfolding status_lua
  get_status event_id user_id s =
      (ok (read_status (status_lua (queue_key event_id) (token_key event_id user_id) user_id s)), s)

  -- The loop pops one entry a round: the fuel is one more than the entries.
  unfoldable pub admit : AdmitInput → Action R.State (List UserId)
  admit input s =
      elim (admit_lua (suc (R.zcard (queue_key input.event_id) s)) input.event_id
        (queue_key input.event_id) (active_key input.event_id) input.cap input.ttl_seconds s) [
          | none ↦ (throw error, s)
          | some (us, s') ↦ (ok us, s')
        ]

  abbrev pub redis_queue_store_adapter : QueueStorePort R.State
  redis_queue_store_adapter = record { join = join; get_status = get_status; admit = admit }
