-- ===== src/Holding/RoundTrip.antt =====
-- Holding a seat and releasing it again.
use kltn_high_concurrency_co.Prelude.{
  ◌<◌, ◌≡◌, ◌∙◌, ap, true, false, none, arith, mem, erase, length,
}
use kltn_high_concurrency_co.Common.Ids.{UserId, EventId, SeatId}
use kltn_high_concurrency_co.Common.Exception.{ok}
use kltn_high_concurrency_co.Redis.{Redis}
use kltn_high_concurrency_co.SeatLock.Ports.{AcquireInput, ReleaseInput, acquired}
use kltn_high_concurrency_co.SeatLock.Adapter.{schema, acquire, release}
use kltn_high_concurrency_co.SeatLock.Spec.{
  Holds, owner, held_by, held_in, hold, unhold, acquire_spec, release_spec, acquire-refines,
  release-refines,
}

-- No client can tell the two apart by locks or sets.
pub record SameHolds (g h : Holds) : Type 0 where
  pub owners : (e : EventId) (x : SeatId) → owner e x g ≡ owner e x h
  pub users : (e : EventId) (u : UserId) → held_by e u g ≡ held_by e u h
  pub events : (e : EventId) → held_in e g ≡ held_in e h

-- The release that undoes a lock request.
abbrev pub undo : AcquireInput → ReleaseInput
undo i = record { event_id = i.event_id; seat_id = i.seat_id; user_id = i.user_id }

-- The seat is free, in neither set, and the user is below the limit.
pub record IsNew (i : AcquireInput) (h : Holds) : Type 0 where
  pub free : owner i.event_id i.seat_id h ≡ none
  pub not_by_user : mem i.seat_id (held_by i.event_id i.user_id h) ≡ false
  pub not_in_event : mem i.seat_id (held_in i.event_id h) ≡ false
  pub room : length (held_by i.event_id i.user_id h) < i.max_per_user

unhold-hold :
    (i : AcquireInput) (h : Holds)
    → IsNew i h
    → SameHolds
        (unhold i.event_id i.seat_id i.user_id
          (hold i.event_id i.seat_id i.user_id i.ttl_seconds h))
        h
unfolding erase
unhold-hold i h w = record {
  owners = λ e x. ground arith;
  users = λ e u. ground arith;
  events = λ e. ground arith;
}

acquire_spec-new :
    (i : AcquireInput) (h : Holds)
    → IsNew i h
    → acquire_spec i h ≡ (acquired, hold i.event_id i.seat_id i.user_id i.ttl_seconds h)
unfolding acquire_spec
acquire_spec-new i h w = ground arith

release_spec-held :
    (i : AcquireInput) (h : Holds)
    → release_spec (undo i) (hold i.event_id i.seat_id i.user_id i.ttl_seconds h) ≡ (
      true,
      unhold i.event_id i.seat_id i.user_id (hold i.event_id i.seat_id i.user_id i.ttl_seconds h),
    )
unfolding release_spec
release_spec-held i h = ground arith

-- For every server and every lifetime above zero: where a seat is free and counted nowhere, and
-- the user is below the limit, `acquire` holds it, and a `release` by the same user then answers
-- true and leaves every lock and every set as they were.
pub release-acquire :
    (R : Redis schema) (i : AcquireInput) (s : R.State)
    → 0 < i.ttl_seconds
    → IsNew i (R.view s)
    → ((acquire R i s).0 ≡ ok acquired)
      × ((release R (undo i) (acquire R i s).1).0 ≡ ok true)
      × SameHolds (R.view (release R (undo i) (acquire R i s).1).1) (R.view s)
release-acquire R i s p w =
    let h = R.view s in
    let (got, held) = acquire-refines R i s p in
    let new = acquire_spec-new i h w in
    let now = held ∙ ap (λ q. q.1) new in
    let (back, undone) = release-refines R (undo i) (acquire R i s).1 in
    (
      got ∙ ap (λ q. ok (q.0)) new,
      rw (back, now) (ap (λ q. ok (q.0)) (release_spec-held i h)),
      rw (undone, now) (rw (release_spec-held i h) (unhold-hold i h w)),
    )
