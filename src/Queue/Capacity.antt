-- ===== src/Queue/Capacity.antt =====
-- No more users than the limit are let in at once, whatever the history of an event.
use kltn_high_concurrency_co.Prelude.{
  ℕ, ◌<◌, ◌≤◌, ◌≡◌, true, false, List, [], ◌∷◌, ltb, arith, length, Bool-cases, inl, inr, mem, All,
  Distinct, erase-Distinct, mem-erase_ne, length-erase-le, length-le_of_All-mem,
}
use kltn_high_concurrency_co.Common.Ids.{UserId, EventId}
use kltn_high_concurrency_co.Redis.Commands
use kltn_high_concurrency_co.Redis.Commands.{rest}
use kltn_high_concurrency_co.Redis.{Redis}
use kltn_high_concurrency_co.Queue.Ports.{AdmitInput}
use kltn_high_concurrency_co.Queue.Adapter.{schema, active_key, get_status}
use kltn_high_concurrency_co.Queue.History.{Call, joins, polls, admits, passes, IsTimed, step, run}
use kltn_high_concurrency_co.Queue.Spec.{
  Rooms, waiting, active, has_token, admit_one, clean_spec, admit_spec, cycle, join_spec,
  join-refines, admit-refines,
}

-- A cycle counts users once, as far as their tokens are alive, and never passes the limit.
pub record IsOrderly (most : EventId → ℕ) (w : Rooms) : Type 0 where
  pub distinct : (e : EventId) → Distinct (active e w)
  pub token_listed : (e : EventId) (u : UserId) → has_token e u w ≡ true → mem u (active e w) ≡ true
  pub capped : (e : EventId) → length (active e w) ≤ most e

module _ (most : EventId → ℕ) where
  drop-IsOrderly :
      (e : EventId) (m : UserId) (w : Rooms)
      → has_token e m w ≡ false
      → IsOrderly most w
      → IsOrderly most (Commands.srem schema (active_key e) m w)
  drop-IsOrderly e m w dead o = record {
    distinct = λ e'. ground (arith, o.distinct e', erase-Distinct m (active e w) (o.distinct e));
    token_listed = λ e' u h. ground (arith, o.token_listed e' u, mem-erase_ne u m (active e w));
    capped = λ e'. ground (arith, o.capped e', length-erase-le m (active e w));
  }

  clean_spec-IsOrderly :
      (e : EventId) (ms : List UserId) (w : Rooms)
      → IsOrderly most w
      → IsOrderly most (clean_spec e ms w)
  unfolding clean_spec
  clean_spec-IsOrderly e [] w o = o
  clean_spec-IsOrderly e (m ∷ ms) w o = elim (Bool-cases (has_token e m w)) [
    | inl live ↦ rw (live, clean_spec) (clean_spec-IsOrderly e ms w o)
    | inr dead ↦
        rw (dead, clean_spec)
          (clean_spec-IsOrderly e ms (Commands.srem schema (active_key e) m w)
            (drop-IsOrderly e m w dead o))
  ]

  admit_one-IsOrderly :
      (e : EventId) (ttl : ℕ) (u : UserId) (w : Rooms)
      → length (active e w) < most e
      → IsOrderly most w
      → IsOrderly most (admit_one e ttl u w)
  unfolding mem
  admit_one-IsOrderly e ttl u w room o = record {
    distinct = λ e'. ground (arith, o.distinct e', o.distinct e);
    token_listed = λ e' v h. ground (arith, o.token_listed e' v);
    capped = λ e'. ground (arith, o.capped e');
  }

  admit_spec-IsOrderly :
      (e : EventId) (ttl : ℕ) (q : List (ℕ × UserId)) (w : Rooms)
      → IsOrderly most w
      → IsOrderly most (admit_spec e (most e) ttl q w).1
  unfolding admit_spec
  admit_spec-IsOrderly e ttl [] w o = elim (Bool-cases (ltb (length (active e w)) (most e))) [
    | inl room ↦
        rw (room, admit_spec)
          (record { distinct = o.distinct; token_listed = o.token_listed; capped = o.capped })
    | inr full ↦ rw (full, admit_spec) o
  ]
  admit_spec-IsOrderly e ttl ((i, u) ∷ q) w o =
      elim (Bool-cases (ltb (length (active e w)) (most e))) [
        | inl room ↦
            rw (room, admit_spec)
              (admit_spec-IsOrderly e ttl q (admit_one e ttl u w)
                (admit_one-IsOrderly e ttl u w (ground arith) o))
        | inr full ↦ rw (full, admit_spec) o
      ]

  pub cycle-IsOrderly :
      (i : AdmitInput) (w : Rooms)
      → i.cap ≡ most i.event_id
      → IsOrderly most w
      → IsOrderly most (cycle i w).1
  cycle-IsOrderly i w c o =
      let e = i.event_id in
      let w' = clean_spec e (active e w) w in
      rw c (
        admit_spec-IsOrderly e i.ttl_seconds (waiting e w') w'
          (clean_spec-IsOrderly e (active e w) w o))

-- The limit of an event is always the same.
abbrev pub HasCap : (EventId → ℕ) → Call → Type 0
HasCap most (admits i) = i.cap ≡ most i.event_id
HasCap most _ = Unit

join_spec-IsOrderly :
    (most : EventId → ℕ) (e : EventId) (u : UserId) (w : Rooms)
    → IsOrderly most w
    → IsOrderly most (join_spec e u w)
unfolding join_spec
join_spec-IsOrderly most e u w o = record {
  distinct = λ e'. ground (arith, o.distinct e');
  token_listed = λ e' v h. ground (arith, o.token_listed e' v);
  capped = λ e'. ground (arith, o.capped e');
}

elapse-IsOrderly :
    (most : EventId → ℕ) (n : ℕ) (w : Rooms)
    → IsOrderly most w
    → IsOrderly most (Commands.elapse schema n w)
elapse-IsOrderly most n w o = record {
  distinct = o.distinct;
  token_listed = λ e' v h. ground (arith, o.token_listed e' v);
  capped = o.capped;
}

step-IsOrderly :
    (R : Redis schema) (most : EventId → ℕ) (s : R.State) (c : Call)
    → IsTimed c
    → HasCap most c
    → IsOrderly most (R.view s)
    → IsOrderly most (R.view (step R s c))
unfolding step get_status
step-IsOrderly R most s (joins e u) t h o =
    rw (join-refines R e u s).0 (join_spec-IsOrderly most e u (R.view s) o)
step-IsOrderly R most s (polls e u) t h o = o
step-IsOrderly R most s (admits i) t h o =
    rw (admit-refines R i s t).1 (cycle-IsOrderly most i (R.view s) h o)
step-IsOrderly R most s (passes n) t h o =
    rw (R.view-elapse n s) (elapse-IsOrderly most n (R.view s) o)

run-IsOrderly :
    (R : Redis schema) (most : EventId → ℕ) (s : R.State) (cs : List Call)
    → All IsTimed cs
    → All (HasCap most) cs
    → IsOrderly most (R.view s)
    → IsOrderly most (R.view (run R s cs))
unfolding run
run-IsOrderly R most s [] t h o = o
run-IsOrderly R most s (c ∷ cs) t h o =
    run-IsOrderly R most (step R s c) cs t.1 h.1 (step-IsOrderly R most s c t.0 h.0 o)

All-listed :
    (most : EventId → ℕ) (e : EventId) (w : Rooms) (us : List UserId)
    → IsOrderly most w
    → All (λ u. has_token e u w ≡ true) us
    → All (λ u. mem u (active e w) ≡ true) us
All-listed most e w [] o h = tt
All-listed most e w (u ∷ us) o h = (o.token_listed e u h.0, All-listed most e w us o h.1)

-- From an orderly state, after any calls in any order and with any time passing between them, on
-- every server: if the limit of each event stays the same and lifetimes are above zero, no more different users
-- hold a live token of an event than its limit.
pub run-at_most_cap :
    (R : Redis schema) (most : EventId → ℕ) (s : R.State) (cs : List Call) (e : EventId)
    (us : List UserId)
    → All IsTimed cs
    → All (HasCap most) cs
    → IsOrderly most (R.view s)
    → Distinct us
    → All (λ u. has_token e u (R.view (run R s cs)) ≡ true) us
    → length us ≤ most e
run-at_most_cap R most s cs e us t h o d tokens =
    let w = R.view (run R s cs) in
    let o' = run-IsOrderly R most s cs t h o in
    omega (
      arith,
      length-le_of_All-mem us (active e w) d (All-listed most e w us o' tokens),
      o'.capped e,
    )
