-- ===== src/Tests/Holds.antt =====
-- Seat locks and seat holds at concrete inputs.
use kltn_high_concurrency_co.Prelude.{
  ℕ, ◌≤◌, ◌≡◌, refl, true, false, none, some, List, [], ◌∷◌, arith, length, All, Distinct, mem,
}
use kltn_high_concurrency_co.Common.Ids.{SeatId}
use kltn_high_concurrency_co.Common.Exception.{ok}
use kltn_high_concurrency_co.Redis.{Redis}
use kltn_high_concurrency_co.Redis.Reference.{reference}
use kltn_high_concurrency_co.SeatLock.Ports.{AcquireInput, ReleaseInput, acquired, limit}
use kltn_high_concurrency_co.SeatLock.Adapter.{schema, acquire, release}
use kltn_high_concurrency_co.SeatLock.Spec.{
  Holds, owner, held_by, acquire_spec, release_spec, acquire-refines, release-refines,
}
use kltn_high_concurrency_co.SeatHold.Adapter.{verify_held}
use kltn_high_concurrency_co.SeatHold.Spec.{first_lost, verify_spec, verify_held-refines}
use kltn_high_concurrency_co.Holding.{Call, acquires, releases, extends, passes, step, run}
use kltn_high_concurrency_co.Holding.Invariant.{IsSound, run-IsSound}
use kltn_high_concurrency_co.Holding.Limit.{run-at_most_max, run-Locked, Locked, elapsed}
use kltn_high_concurrency_co.Holding.RoundTrip.{SameHolds, undo, IsNew, release-acquire}
use kltn_high_concurrency_co.Holding.Drift.{RunsOutWithin, acquire_after_expiry}

abbrev server : Redis schema
server = reference schema

abbrev nothing : Holds
nothing = record { strings = λ k. none; sets = λ k. []; queues = λ k. [] }

abbrev want : ℕ → ℕ → AcquireInput
want user seat = record {
  event_id = 1;
  seat_id = seat;
  user_id = user;
  ttl_seconds = 600;
  max_per_user = 2;
}

abbrev give : ℕ → ℕ → ReleaseInput
give user seat = record { event_id = 1; seat_id = seat; user_id = user }

-- User 5 takes two seats and asks for a third, user 6 asks for one of them.
abbrev evening : List Call
evening =
    acquires (want 5 7)
    ∷ acquires (want 5 8)
    ∷ acquires (want 5 9)
    ∷ acquires (want 6 7)
    ∷ passes 30
    ∷ extends 1 (7 ∷ 8 ∷ []) 5 600
    ∷ releases (give 5 8)
    ∷ []

abbrev evening_start : List Call
evening_start =
    acquires (want 5 7) ∷ acquires (want 5 8) ∷ acquires (want 5 9) ∷ acquires (want 6 7) ∷ []

nothing-IsSound : IsSound 2 nothing
nothing-IsSound = record {
  distinct = λ k. tt;
  listed = λ e x u h. cc;
  limited = λ e u. omega arith;
}

abbrev two_seats : List SeatId
two_seats = 7 ∷ 8 ∷ []

owned : All (λ x. owner 1 x (run server nothing (evening_start)) ≡ some 5) two_seats
unfolding run step acquire
owned = ground arith

two_seats-Distinct : Distinct two_seats
unfolding mem
two_seats-Distinct = ground arith

run-at_most_max_example : length two_seats ≤ 2
run-at_most_max_example =
    run-at_most_max server 2 nothing evening_start 1 5 two_seats (ground arith) (ground arith)
      nothing-IsSound two_seats-Distinct owned

run-IsSound_example : IsSound 2 (run server nothing evening)
run-IsSound_example =
    run-IsSound server 2 nothing evening (ground arith) (ground arith) nothing-IsSound

-- User 5 holds seat 7 for 600 seconds.
abbrev held : Holds
held = (acquire_spec (want 5 7) nothing).1

abbrev others : List Call
others = acquires (want 6 7) ∷ passes 30 ∷ releases (give 6 7) ∷ passes 100 ∷ []

acquire-refines_example :
    ((acquire server (want 6 7) held).0 ≡ ok (acquire_spec (want 6 7) held).0)
    × ((acquire server (want 6 7) held).1 ≡ (acquire_spec (want 6 7) held).1)
acquire-refines_example = acquire-refines server (want 6 7) held (omega arith)

release-refines_example :
    ((release server (give 5 7) held).0 ≡ ok (release_spec (give 5 7) held).0)
    × ((release server (give 5 7) held).1 ≡ (release_spec (give 5 7) held).1)
release-refines_example = release-refines server (give 5 7) held

held_lock : Locked 1 7 5 600 held
unfolding acquire_spec
held_lock = refl

run-Locked_example : Locked 1 7 5 470 (run server held others)
unfolding elapsed
run-Locked_example =
    run-Locked 1 7 5 server 600 held others (ground arith) (ground arith) (omega arith) held_lock

verify_held-refines_example :
    verify_held server 1 (7 ∷ 8 ∷ []) 5 held
    ≡ (ok (verify_spec (first_lost 1 5 held (7 ∷ 8 ∷ []))), held)
verify_held-refines_example = verify_held-refines server 1 5 (7 ∷ 8 ∷ []) held

want-IsNew : IsNew (want 5 8) held
unfolding acquire_spec mem
want-IsNew = record { free = refl; not_by_user = refl; not_in_event = refl; room = ground arith }

release-acquire_example :
    ((acquire server (want 5 8) held).0 ≡ ok acquired)
    × ((release server (undo (want 5 8)) (acquire server (want 5 8) held).1).0 ≡ ok true)
    × SameHolds (release server (undo (want 5 8)) (acquire server (want 5 8) held).1).1 held
release-acquire_example = release-acquire server (want 5 8) held (omega arith) want-IsNew

-- The user is at the limit, and then all the locks run out.
abbrev full : Holds
full = (acquire_spec (want 5 8) held).1

full-limit : 2 ≤ length (held_by 1 5 full)
unfolding acquire_spec mem
full-limit = let two : length (held_by 1 5 full) ≡ 2 = refl in omega arith

full-RunsOutWithin : RunsOutWithin 600 full
unfolding acquire_spec mem
full-RunsOutWithin e x = ground arith

acquire_after_expiry_example :
    ((acquire server (want 5 9) (server.elapse 600 full)).0 ≡ ok limit)
    × ((x : SeatId)
        → ((release server (give 5 x) (server.elapse 600 full)).0 ≡ ok false)
          × ((release server (give 5 x) (server.elapse 600 full)).1 ≡ server.elapse 600 full))
acquire_after_expiry_example =
    acquire_after_expiry server 600 full (want 5 9) (omega arith) full-limit full-RunsOutWithin
