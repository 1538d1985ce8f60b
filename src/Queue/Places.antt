-- ===== src/Queue/Places.antt =====
-- A user keeps the place in the queue of an event while nobody is let in.
use kltn_high_concurrency_co.Prelude.{
  ℕ, zero, suc, ◌≡◌, sym, subst, some, List, [], ◌∷◌, ◌++◌, ◌==◌, ==→eq, arith, Bool-cases,
  Option-cases, inl, inr, All, get_elem?,
}
use kltn_high_concurrency_co.Common.Ids.{UserId, EventId}
use kltn_high_concurrency_co.Redis.Commands.{score_of}
use kltn_high_concurrency_co.Redis.{Redis}
use kltn_high_concurrency_co.Queue.Adapter.{schema, get_status}
use kltn_high_concurrency_co.Queue.History.{Call, joins, polls, admits, passes, step, run}
use kltn_high_concurrency_co.Queue.Fifo.{IsQueue, waiting-join_spec}
use kltn_high_concurrency_co.Queue.Line.{step-IsQueue, join_other_lem}
use kltn_high_concurrency_co.Queue.Progress.{IsShort, join_spec-IsShort, elapse-IsShort}
use kltn_high_concurrency_co.Queue.Spec.{Rooms, waiting, users, join_spec, join-refines}

-- The user stands at place `r` of the queue, the queue is in order and no token outlasts the lifetime.
pub record IsWaiting (e : EventId) (ttl : ℕ) (u : UserId) (r : ℕ) (w : Rooms) : Type 0 where
  pub queue : IsQueue e w
  pub short : IsShort e ttl w
  pub place : get_elem? (users (waiting e w)) r ≡ some u

get_elem?-users-append :
    (q p : List (ℕ × UserId)) (r : ℕ) (u : UserId)
    → get_elem? (users q) r ≡ some u
    → get_elem? (users (q ++ p)) r ≡ some u
get_elem?-users-append [] p r u h = absurd (ground (arith, h))
get_elem?-users-append (x ∷ q) p zero u h = h
get_elem?-users-append (x ∷ q) p (suc r) u h = get_elem?-users-append q p r u h

place-join_spec :
    (e e' : EventId) (u v : UserId) (r : ℕ) (w : Rooms)
    → IsQueue e w
    → get_elem? (users (waiting e w)) r ≡ some u
    → get_elem? (users (waiting e (join_spec e' v w))) r ≡ some u
place-join_spec e e' u v r w queue h = elim (Bool-cases (e' == e)) [
  | inr other ↦ rw (join_other_lem e' e v w other).2 h
  | inl same ↦
      subst (λ k. get_elem? (users (waiting e (join_spec k v w))) r ≡ some u)
        (sym (==→eq e' e same))
        (elim (Option-cases (score_of v (waiting e w))) [
          | inl new ↦
              rw (waiting-join_spec e v w queue new) (get_elem?-users-append (waiting e w) _ r u h)
          | inr (n, old) ↦ unfold join_spec in rw (old, join_spec) h
        ])
]

-- what happens between two rounds
abbrev pub IsQuiet : Call → Type 0
IsQuiet (admits i) = ⊥
IsQuiet _ = Unit

module _ (R : Redis schema) (e : EventId) (ttl : ℕ) (u : UserId) where
  pub quiet-IsWaiting :
      (r : ℕ) (c : Call) (s : R.State)
      → IsQuiet c
      → IsWaiting e ttl u r (R.view s)
      → IsWaiting e ttl u r (R.view (step R s c))
  unfolding step get_status
  quiet-IsWaiting r (joins e' v) s q w = record {
    queue = step-IsQueue R e s (joins e' v) tt w.queue;
    short = rw (join-refines R e' v s).0 (join_spec-IsShort e e' v ttl (R.view s) w.short);
    place = rw (join-refines R e' v s).0 (place-join_spec e e' u v r (R.view s) w.queue w.place);
  }
  quiet-IsWaiting r (polls e' v) s q w = w
  quiet-IsWaiting r (admits i) s q w = absurd q
  quiet-IsWaiting r (passes n) s q w = record {
    queue = step-IsQueue R e s (passes n) tt w.queue;
    short = rw (R.view-elapse n s) (elapse-IsShort e ttl n (R.view s) w.short);
    place = rw (R.view-elapse n s) w.place;
  }

  pub run-IsWaiting :
      (r : ℕ) (cs : List Call) (s : R.State)
      → All IsQuiet cs
      → IsWaiting e ttl u r (R.view s)
      → IsWaiting e ttl u r (R.view (run R s cs))
  unfolding run
  run-IsWaiting r [] s q w = w
  run-IsWaiting r (c ∷ cs) s q w = run-IsWaiting r cs (step R s c) q.1 (quiet-IsWaiting r c s q.0 w)
