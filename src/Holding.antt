-- ===== src/Holding.antt =====
-- Histories of seat holds: the calls that lock requests, order requests, timeouts and the clock
-- make on one server, in any order.
pub mod Invariant
pub mod Limit
pub mod Drift
pub mod RoundTrip
use kltn_high_concurrency_co.Prelude.{ℕ, ◌<◌, ◌≡◌, refl, List, [], ◌∷◌, arith}
use kltn_high_concurrency_co.Common.Ids.{UserId, EventId, SeatId}
use kltn_high_concurrency_co.Redis.Commands
use kltn_high_concurrency_co.Redis.{Redis}
use kltn_high_concurrency_co.SeatLock.Ports.{AcquireInput, ReleaseInput}
use kltn_high_concurrency_co.SeatLock.Adapter.{schema, acquire, release}
use kltn_high_concurrency_co.SeatLock.Spec.{
  Holds, acquire_spec, release_spec, acquire-refines, release-refines,
}
use kltn_high_concurrency_co.SeatHold.Adapter.{verify_held, extend_hold, release_hold}
use kltn_high_concurrency_co.SeatHold.Spec.{
  extend_spec, verify_held-refines, extend_hold-refines, release_hold-refines,
}

pub data Call : Type 0 where
  acquires : AcquireInput → Call
  releases : ReleaseInput → Call
  verifies : EventId → List SeatId → UserId → Call
  extends : EventId → List SeatId → UserId → ℕ → Call
  drops : EventId → SeatId → UserId → Call
  passes : ℕ → Call

-- The lifetimes that a call sets are above zero.
abbrev pub IsTimed : Call → Type 0
IsTimed (acquires i) = 0 < i.ttl_seconds
IsTimed (extends e xs u t) = 0 < t
IsTimed _ = Unit

-- The limit that a lock request passes is the configured one.
abbrev pub HasLimit : ℕ → Call → Type 0
HasLimit max (acquires i) = i.max_per_user ≡ max
HasLimit max _ = Unit

unfoldable pub step : (R : Redis schema) → R.State → Call → R.State
step R s (acquires i) = (acquire R i s).1
step R s (releases i) = (release R i s).1
step R s (verifies e xs u) = (verify_held R e xs u s).1
step R s (extends e xs u t) = (extend_hold R e xs u t s).1
step R s (drops e x u) = (release_hold R e x u s).1
step R s (passes n) = R.elapse n s

unfoldable pub run : (R : Redis schema) → R.State → List Call → R.State
unfolding step
run R s [] = s
run R s (c ∷ cs) = run R (step R s c) cs

-- The same calls by the atomic specifications.
unfoldable pub step_spec : Holds → Call → Holds
step_spec h (acquires i) = (acquire_spec i h).1
step_spec h (releases i) = (release_spec i h).1
step_spec h (verifies e xs u) = h
step_spec h (extends e xs u t) = (extend_spec e xs u t h).1
step_spec h (drops e x u) = (release_spec (record { event_id = e; seat_id = x; user_id = u }) h).1
step_spec h (passes n) = Commands.elapse schema n h

pub step-refines :
    (R : Redis schema) (s : R.State) (c : Call)
    → IsTimed c
    → R.view (step R s c) ≡ step_spec (R.view s) c
unfolding step step_spec verify_held
step-refines R s (acquires i) p = (acquire-refines R i s p).1
step-refines R s (releases i) p = (release-refines R i s).1
step-refines R s (verifies e xs u) p = refl
step-refines R s (extends e xs u t) p = (extend_hold-refines R e u xs t s p).1
step-refines R s (drops e x u) p = release_hold-refines R e u x s
step-refines R s (passes n) p = R.view-elapse n s
