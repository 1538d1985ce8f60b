-- ===== src/SeatLock/Spec.antt =====
-- What one atomic call of the seat-lock adapter does to the keys that clients can observe.
use kltn_high_concurrency_co.Prelude.{
  ℕ, ◌<◌, ◌≡◌, Bool, true, false, Option, none, some, List, ◌==◌, leb, if◌then◌else◌, arith,
  Option-cases, inl, inr,
}
use kltn_high_concurrency_co.Common.Ids.{UserId, EventId, SeatId}
use kltn_high_concurrency_co.Common.Exception.{ok}
use kltn_high_concurrency_co.Redis.Commands
use kltn_high_concurrency_co.Redis.Commands.{Keyspace}
use kltn_high_concurrency_co.Redis.{Redis}
use kltn_high_concurrency_co.SeatLock.Ports.{
  AcquireResult, acquired, rehold, seat_taken, limit, AcquireInput, ReleaseInput,
}
use kltn_high_concurrency_co.SeatLock.Adapter.{
  schema, lock_key, user_set_key, event_set_key, acquire, release,
}

abbrev pub Holds : Type 0
Holds = Keyspace schema

-- Who holds a seat.
abbrev pub owner : EventId → SeatId → Holds → Option UserId
owner e x h = Commands.get schema (lock_key e x) h

-- The seats that count towards a user's limit, and those of the whole event.
abbrev pub held_by : EventId → UserId → Holds → List SeatId
held_by e u h = h.sets (user_set_key e u)

abbrev pub held_in : EventId → Holds → List SeatId
held_in e h = h.sets (event_set_key e)

abbrev pub hold : EventId → SeatId → UserId → ℕ → Holds → Holds
hold e x u t h =
    Commands.sadd schema (event_set_key e) x
      (Commands.sadd schema (user_set_key e u) x (Commands.set_ex schema (lock_key e x) u t h))

abbrev pub unhold : EventId → SeatId → UserId → Holds → Holds
unhold e x u h =
    Commands.srem schema (event_set_key e) x
      (Commands.srem schema (user_set_key e u) x (Commands.del schema (lock_key e x) h))

-- A free seat is held if the user is below the limit; a held one is reported.
unfoldable pub acquire_spec : AcquireInput → Holds → AcquireResult × Holds
acquire_spec i h = elim (owner i.event_id i.seat_id h) [
  | some u ↦ (if u == i.user_id then rehold else seat_taken, h)
  | none ↦
      if leb i.max_per_user (Commands.scard schema (user_set_key i.event_id i.user_id) h)
      then (limit, h)
      else (acquired, hold i.event_id i.seat_id i.user_id i.ttl_seconds h)
]

-- Only the holder's release does anything.
unfoldable pub release_spec : ReleaseInput → Holds → Bool × Holds
release_spec i h = elim (owner i.event_id i.seat_id h) [
  | some u ↦ if u == i.user_id then (true, unhold i.event_id i.seat_id i.user_id h) else (false, h)
  | none ↦ (false, h)
]

module _ (R : Redis schema) where
  -- For every server that obeys the documented commands and every lifetime above zero, `acquire`
  -- never throws: its result and the keys afterwards are those of the atomic specification.
  pub acquire-refines :
      (i : AcquireInput) (s : R.State)
      → 0 < i.ttl_seconds
      → ((acquire R i s).0 ≡ ok (acquire_spec i (R.view s)).0)
        × (R.view (acquire R i s).1 ≡ (acquire_spec i (R.view s)).1)
  unfolding acquire acquire_spec
  acquire-refines i s p =
      let lock = lock_key i.event_id i.seat_id in
      let us = user_set_key i.event_id i.user_id in
      let s1 = R.set_ex lock i.user_id i.ttl_seconds s in
      let s2 = R.sadd us i.seat_id s1 in
      elim (Option-cases (owner i.event_id i.seat_id (R.view s))) [
        | inr (u, e) ↦ ground (arith, R.get_lem lock s, e)
        | inl e ↦ ground (
          arith,
          R.get_lem lock s,
          R.scard_lem us s,
          R.view-set_ex lock i.user_id i.ttl_seconds s p,
          R.view-sadd us i.seat_id s1,
          R.view-sadd (event_set_key i.event_id) i.seat_id s2,
        )
      ]

  -- `release` answers and changes what the atomic specification says, on every server.
  pub release-refines :
      (i : ReleaseInput) (s : R.State)
      → ((release R i s).0 ≡ ok (release_spec i (R.view s)).0)
        × (R.view (release R i s).1 ≡ (release_spec i (R.view s)).1)
  unfolding release release_spec
  release-refines i s =
      let lock = lock_key i.event_id i.seat_id in
      let us = user_set_key i.event_id i.user_id in
      let s1 = R.del lock s in
      let s2 = R.srem us i.seat_id s1 in
      elim (Option-cases (owner i.event_id i.seat_id (R.view s))) [
        | inl e ↦ ground (arith, R.get_lem lock s, e)
        | inr (u, e) ↦ ground (
          arith,
          R.get_lem lock s,
          e,
          R.view-del lock s,
          R.view-srem us i.seat_id s1,
          R.view-srem (event_set_key i.event_id) i.seat_id s2,
        )
      ]
