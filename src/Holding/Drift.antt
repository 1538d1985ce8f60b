-- ===== src/Holding/Drift.antt =====
-- The sets that the limit is counted by have no expiry of their own. What that does to users.
use kltn_high_concurrency_co.Prelude.{ℕ, ◌≤◌, ◌<◌, ◌≡◌, ap, ◌∙◌, false, none, arith, length}
use kltn_high_concurrency_co.Common.Ids.{UserId, EventId, SeatId}
use kltn_high_concurrency_co.Common.Exception.{ok}
use kltn_high_concurrency_co.Redis.Commands
use kltn_high_concurrency_co.Redis.{Redis}
use kltn_high_concurrency_co.SeatLock.Ports.{AcquireInput, ReleaseInput, limit}
use kltn_high_concurrency_co.SeatLock.Adapter.{schema, acquire, release}
use kltn_high_concurrency_co.SeatLock.Spec.{
  Holds, owner, held_by, acquire_spec, release_spec, acquire-refines, release-refines,
}
use kltn_high_concurrency_co.SeatHold.Adapter.{release_hold}
use kltn_high_concurrency_co.SeatHold.Spec.{release_hold-refines}

-- Every lock of a set of keys runs out within n seconds.
abbrev pub RunsOutWithin : ℕ → Holds → Type 0
RunsOutWithin n h = (e : EventId) (x : SeatId) → owner e x (Commands.elapse schema n h) ≡ none

acquire_spec-limit :
    (i : AcquireInput) (h : Holds)
    → owner i.event_id i.seat_id h ≡ none
    → i.max_per_user ≤ length (held_by i.event_id i.user_id h)
    → (acquire_spec i h).0 ≡ limit
unfolding acquire_spec
acquire_spec-limit i h free full = ground arith

release_spec-free :
    (i : ReleaseInput) (h : Holds)
    → owner i.event_id i.seat_id h ≡ none
    → release_spec i h ≡ (false, h)
unfolding release_spec
release_spec-free i h free = rw (free, release_spec)

-- A release of a seat that nobody holds changes nothing.
pub release_hold-free :
    (R : Redis schema) (e : EventId) (x : SeatId) (u : UserId) (s : R.State)
    → owner e x (R.view s) ≡ none
    → R.view (release_hold R e x u s).1 ≡ R.view s
release_hold-free R e x u s free =
    release_hold-refines R e u x s
    ∙ ap (λ q. q.1)
        (release_spec-free (record { event_id = e; seat_id = x; user_id = u }) (R.view s) free)

module _ (R : Redis schema) (n : ℕ) (s : R.State) where
  pub gone :
      (e : EventId) (x : SeatId)
      → RunsOutWithin n (R.view s)
      → owner e x (R.view (R.elapse n s)) ≡ none
  gone e x out = rw (R.view-elapse n s) (out e x)

  -- When the set of a user for an event has reached the limit of a request with a lifetime above zero, and all
  -- the locks run out, the request answers LIMIT for any seat of the event, and no release of a seat of
  -- that event by the user frees anything, on every server.
  pub acquire_after_expiry :
      (i : AcquireInput)
      → 0 < i.ttl_seconds
      → i.max_per_user ≤ length (held_by i.event_id i.user_id (R.view s))
      → RunsOutWithin n (R.view s)
      → ((acquire R i (R.elapse n s)).0 ≡ ok limit)
        × ((x : SeatId)
            → let r : ReleaseInput = record {
              event_id = i.event_id;
              seat_id = x;
              user_id = i.user_id;
            } in
              ((release R r (R.elapse n s)).0 ≡ ok false)
              × (R.view (release R r (R.elapse n s)).1 ≡ R.view (R.elapse n s)))
  acquire_after_expiry i p full out = (
    (acquire-refines R i (R.elapse n s) p).0
        ∙ ap ok (
            acquire_spec-limit i (R.view (R.elapse n s)) (gone i.event_id i.seat_id out)
              (rw (R.view-elapse n s) full)),
    λ x.
        let r : ReleaseInput = record { event_id = i.event_id; seat_id = x; user_id = i.user_id } in
        let free = release_spec-free r (R.view (R.elapse n s)) (gone i.event_id x out) in
        (
          (release-refines R r (R.elapse n s)).0 ∙ ap (λ q. ok (q.0)) free,
          (release-refines R r (R.elapse n s)).1 ∙ ap (λ q. q.1) free,
        ),
  )
