-- ===== src/Tests/Rounds.antt =====
-- Rounds of the scheduler at concrete inputs.
use kltn_high_concurrency_co.Prelude.{ℕ, ◌≡◌, refl, List, [], ◌∷◌, ◌++◌, ◌<◌, arith}
use kltn_high_concurrency_co.Queue.Ports.{AdmitInput}
use kltn_high_concurrency_co.Queue.Spec.{Rooms, join_spec}
use kltn_high_concurrency_co.Queue.Cycle.{IsAdmitted}
use kltn_high_concurrency_co.Queue.History.{Call, joins}
use kltn_high_concurrency_co.Queue.Places.{IsWaiting}
use kltn_high_concurrency_co.Queue.Rounds.{play_all, play_all-IsAdmitted}
use kltn_high_concurrency_co.Tests.Rooms.{server, one_waits}

abbrev input : AdmitInput
input = record { event_id = 1; cap = 1; ttl_seconds = 300 }

lifetime : 0 < input.ttl_seconds
lifetime = omega arith

-- User 6 waits behind user 5.
abbrev two_wait : Rooms
two_wait = join_spec 1 6 one_waits

two_wait-IsWaiting : IsWaiting 1 300 6 1 two_wait
unfolding join_spec
two_wait-IsWaiting = record {
  queue = record { bounded = ground arith; persistent = refl };
  short = λ u. refl;
  place = refl;
}

abbrev two_rounds : List (List Call × ℕ)
two_rounds = ([], 300) ∷ (joins 1 7 ∷ [], 400) ∷ []

play_all-IsAdmitted_example :
    (played : List (List Call × ℕ)) × (later : List (List Call × ℕ)) × (two_rounds
      ≡ played ++ later)
    × IsAdmitted 1 300 (play_all server input lifetime 6 played two_wait) 6
play_all-IsAdmitted_example =
    play_all-IsAdmitted server input lifetime 6 1 two_rounds two_wait (ground arith) (omega arith)
      two_wait-IsWaiting
