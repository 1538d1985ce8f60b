-- ===== src/Queue/Line.antt =====
-- Every history keeps the queues in the order of arrival.
use kltn_high_concurrency_co.Prelude.{
  ℕ, ◌+◌, ◌≡◌, ◌∙◌, false, none, List, [], ◌∷◌, ltb, ◌==◌, arith, length, All, ==_refl, ==→eq,
  Bool-cases, Option-cases, inl, inr, subst,
}
use kltn_high_concurrency_co.Common.Ids.{UserId, EventId}
use kltn_high_concurrency_co.Redis.Commands
use kltn_high_concurrency_co.Redis.Commands.{score_of, rest}
use kltn_high_concurrency_co.Redis.{Redis}
use kltn_high_concurrency_co.Queue.Adapter.{schema, seq_key, queue_key, active_key, get_status}
use kltn_high_concurrency_co.Queue.Spec.{
  Rooms, waiting, active, has_token, next_seq, join_spec, join-refines, admit_one, clean_spec,
  admit_spec, admit-refines,
}
use kltn_high_concurrency_co.Queue.History.{Call, joins, polls, admits, passes, IsTimed, step, run}
use kltn_high_concurrency_co.Queue.Fifo.{IsQueue, All-rest, All-later, waiting-join_spec}

next_seq-join_same :
    (e : EventId) (u : UserId) (w : Rooms)
    → score_of u (waiting e w) ≡ none
    → (next_seq e (join_spec e u w) ≡ next_seq e w + 1)
      × (Commands.left_of schema (seq_key e) (join_spec e u w)
          ≡ Commands.left_of schema (seq_key e) w)
unfolding join_spec
next_seq-join_same e u w new = ground (arith, ==_refl e)

join_same-IsQueue :
    (e : EventId) (u : UserId) (w : Rooms) → IsQueue e w → IsQueue e (join_spec e u w)
join_same-IsQueue e u w v = elim (Option-cases (score_of u (waiting e w))) [
  | inr (n, old) ↦ unfold join_spec in rw (old, join_spec) v
  | inl new ↦
      let (seq, left) = next_seq-join_same e u w new in
      record {
        bounded =
            rw (waiting-join_spec e u w v new, seq)
              (All-later (next_seq e w + 1) (next_seq e w) u (waiting e w) (omega arith) v.bounded);
        persistent = left ∙ v.persistent;
      }
]

pub join_other_lem :
    (e e' : EventId) (u : UserId) (w : Rooms)
    → (e == e') ≡ false
    → (next_seq e' (join_spec e u w) ≡ next_seq e' w)
      × (Commands.left_of schema (seq_key e') (join_spec e u w)
          ≡ Commands.left_of schema (seq_key e') w)
      × (waiting e' (join_spec e u w) ≡ waiting e' w)
unfolding join_spec
join_other_lem e e' u w other = ground arith

join_spec-IsQueue :
    (e e' : EventId) (u : UserId) (w : Rooms) → IsQueue e' w → IsQueue e' (join_spec e u w)
join_spec-IsQueue e e' u w v = elim (Bool-cases (e == e')) [
  | inl same ↦
      subst (λ k. IsQueue k (join_spec e u w)) (==→eq e e' same)
        (join_same-IsQueue e u w (rw (==→eq e e' same) v))
  | inr other ↦
      let (seq, left, queue) = join_other_lem e e' u w other in
      record { bounded = rw (seq, queue) v.bounded; persistent = left ∙ v.persistent }
]

-- popping the head of any queue
pop-IsQueue :
    (e e' : EventId) (w : Rooms)
    → IsQueue e' w
    → IsQueue e' (Commands.zpopmin schema (queue_key e) w)
pop-IsQueue e e' w v = record {
  bounded = ground (arith, v.bounded, All-rest (next_seq e' w) (waiting e' w) v.bounded);
  persistent = v.persistent;
}

admit_one-IsQueue :
    (e e' : EventId) (ttl : ℕ) (u : UserId) (w : Rooms)
    → IsQueue e' w
    → IsQueue e' (admit_one e ttl u w)
admit_one-IsQueue e e' ttl u w v =
    let o = pop-IsQueue e e' w v in record { bounded = o.bounded; persistent = o.persistent }

admit_spec-IsQueue :
    (e e' : EventId) (most ttl : ℕ) (q : List (ℕ × UserId)) (w : Rooms)
    → IsQueue e' w
    → IsQueue e' (admit_spec e most ttl q w).1
unfolding admit_spec
admit_spec-IsQueue e e' most ttl [] w v = elim (Bool-cases (ltb (length (active e w)) most)) [
  | inl room ↦ rw (room, admit_spec) (pop-IsQueue e e' w v)
  | inr full ↦ rw (full, admit_spec) v
]
admit_spec-IsQueue e e' most ttl ((i, u) ∷ q) w v =
    elim (Bool-cases (ltb (length (active e w)) most)) [
      | inl room ↦
          rw (room, admit_spec)
            (admit_spec-IsQueue e e' most ttl q (admit_one e ttl u w)
              (admit_one-IsQueue e e' ttl u w v))
      | inr full ↦ rw (full, admit_spec) v
    ]

clean_spec-IsQueue :
    (e e' : EventId) (ms : List UserId) (w : Rooms) → IsQueue e' w → IsQueue e' (clean_spec e ms w)
unfolding clean_spec
clean_spec-IsQueue e e' [] w v = v
clean_spec-IsQueue e e' (m ∷ ms) w v = elim (Bool-cases (has_token e m w)) [
  | inl live ↦ rw (live, clean_spec) (clean_spec-IsQueue e e' ms w v)
  | inr dead ↦
      rw (dead, clean_spec)
        (clean_spec-IsQueue e e' ms (Commands.srem schema (active_key e) m w)
          (record { bounded = v.bounded; persistent = v.persistent }))
]

elapse-IsQueue :
    (e : EventId) (n : ℕ) (w : Rooms) → IsQueue e w → IsQueue e (Commands.elapse schema n w)
elapse-IsQueue e n w v =
    let same : Commands.count schema (seq_key e) (Commands.elapse schema n w)
        ≡ Commands.count schema (seq_key e) w =
      ground (arith, v.persistent) in
    record { bounded = rw same v.bounded; persistent = ground (arith, v.persistent) }

pub step-IsQueue :
    (R : Redis schema) (e : EventId) (s : R.State) (c : Call)
    → IsTimed c
    → IsQueue e (R.view s)
    → IsQueue e (R.view (step R s c))
unfolding step get_status
step-IsQueue R e s (joins e' u) t v =
    rw (join-refines R e' u s).0 (join_spec-IsQueue e' e u (R.view s) v)
step-IsQueue R e s (polls e' u) t v = v
step-IsQueue R e s (admits i) t v =
    let k = i.event_id in
    let w = R.view s in
    let w' = clean_spec k (active k w) w in
    rw (admit-refines R i s t).1 (
      admit_spec-IsQueue k e i.cap i.ttl_seconds (waiting k w') w'
        (clean_spec-IsQueue k e (active k w) w v))
step-IsQueue R e s (passes n) t v = rw (R.view-elapse n s) (elapse-IsQueue e n (R.view s) v)

-- Whatever calls are made, in any order and with any time passing between them, on whatever
-- server, with lifetimes above zero: the scores of an event's queue stay below the next one and
-- its counter never expires.
pub run-IsQueue :
    (R : Redis schema) (e : EventId) (s : R.State) (cs : List Call)
    → All IsTimed cs
    → IsQueue e (R.view s)
    → IsQueue e (R.view (run R s cs))
unfolding run
run-IsQueue R e s [] t v = v
run-IsQueue R e s (c ∷ cs) t v = run-IsQueue R e (step R s c) cs t.1 (step-IsQueue R e s c t.0 v)
