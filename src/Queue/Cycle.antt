-- ===== src/Queue/Cycle.antt =====
-- What one admission cycle guarantees.
use kltn_high_concurrency_co.Prelude.{
  ℕ, ◌<◌, ◌≤◌, ◌≡◌, ◌∙◌, ◌⊎◌, ap, refl, true, some, List, [], ◌∷◌, ◌++◌, ltb, arith, length,
  Bool-cases, inl, inr, ==_refl, mem, All,
}
use kltn_high_concurrency_co.Common.Ids.{UserId, EventId}
use kltn_high_concurrency_co.Common.Exception.{ok}
use kltn_high_concurrency_co.Redis.Commands.{rest}
use kltn_high_concurrency_co.Redis.{Redis}
use kltn_high_concurrency_co.Queue.Ports.{AdmitInput}
use kltn_high_concurrency_co.Queue.Adapter.{schema, token_key, queue_key, admit}
use kltn_high_concurrency_co.Queue.Spec.{
  Rooms, waiting, users, active, admit_one, clean_spec, admit_spec, cycle, queues-clean_spec,
  admit-refines,
}

waiting-admit_one :
    (e : EventId) (ttl i : ℕ) (u : UserId) (q : List (ℕ × UserId)) (w : Rooms)
    → waiting e w ≡ (i, u) ∷ q
    → waiting e (admit_one e ttl u w) ≡ q
waiting-admit_one e ttl i u q w h = rw (==_refl e) (ap rest h)

-- those admitted and those left are the queue, in order
fifo :
    (e : EventId) (most ttl : ℕ) (q : List (ℕ × UserId)) (w : Rooms)
    → waiting e w ≡ q
    → (admit_spec e most ttl q w).0 ++ users (waiting e (admit_spec e most ttl q w).1) ≡ users q
unfolding admit_spec
fifo e most ttl [] w h = ground (arith, ==_refl e)
fifo e most ttl ((i, u) ∷ q) w h = elim (Bool-cases (ltb (length (active e w)) most)) [
  | inl room ↦
      rw (room, admit_spec)
        (ap (◌∷◌ u) (fifo e most ttl q (admit_one e ttl u w) (waiting-admit_one e ttl i u q w h)))
  | inr full ↦ rw (full, admit_spec) (ap users h)
]

capped :
    (e : EventId) (most ttl : ℕ) (q : List (ℕ × UserId)) (w : Rooms)
    → length (active e w) ≤ most
    → length (active e (admit_spec e most ttl q w).1) ≤ most
unfolding admit_spec
capped e most ttl [] w h = ground arith
capped e most ttl ((i, u) ∷ q) w h = elim (Bool-cases (ltb (length (active e w)) most)) [
  | inl room ↦
      rw (room, admit_spec) (capped e most ttl q (admit_one e ttl u w) (ground (arith, ==_refl e)))
  | inr full ↦ rw (full, admit_spec) h
]

-- no place stays free while somebody waits
conserving :
    (e : EventId) (most ttl : ℕ) (q : List (ℕ × UserId)) (w : Rooms)
    → waiting e w ≡ q
    → (most ≤ length (active e (admit_spec e most ttl q w).1))
      ⊎ (users (waiting e (admit_spec e most ttl q w).1) ≡ [])
unfolding admit_spec
conserving e most ttl [] w h = ground (arith, ==_refl e)
conserving e most ttl ((i, u) ∷ q) w h = elim (Bool-cases (ltb (length (active e w)) most)) [
  | inl room ↦
      rw (room, admit_spec)
        (conserving e most ttl q (admit_one e ttl u w) (waiting-admit_one e ttl i u q w h))
  | inr full ↦ rw (full, admit_spec) (inl (ground arith))
]

-- The user counts as active and has a token with the full lifetime.
abbrev pub IsAdmitted : EventId → ℕ → Rooms → UserId → Type 0
IsAdmitted e ttl w u =
    (mem u (active e w) ≡ true)
    × (w.strings (token_key e u) ≡ some (record { value = 1; left = some ttl }))

admit_one-IsAdmitted :
    (e : EventId) (ttl : ℕ) (u v : UserId) (w : Rooms)
    → IsAdmitted e ttl w v
    → IsAdmitted e ttl (admit_one e ttl u w) v
unfolding mem
admit_one-IsAdmitted e ttl u v w h = ground (arith, ==_refl e)

admit_one_self :
    (e : EventId) (ttl : ℕ) (u : UserId) (w : Rooms) → IsAdmitted e ttl (admit_one e ttl u w) u
unfolding mem
admit_one_self e ttl u w = ground (arith, ==_refl e, ==_refl u)

keeps-IsAdmitted :
    (e : EventId) (most ttl : ℕ) (q : List (ℕ × UserId)) (w : Rooms) (v : UserId)
    → IsAdmitted e ttl w v
    → IsAdmitted e ttl (admit_spec e most ttl q w).1 v
unfolding admit_spec
keeps-IsAdmitted e most ttl [] w v h = ground arith
keeps-IsAdmitted e most ttl ((i, u) ∷ q) w v h =
    elim (Bool-cases (ltb (length (active e w)) most)) [
      | inl room ↦
          rw (room, admit_spec)
            (keeps-IsAdmitted e most ttl q (admit_one e ttl u w) v
              (admit_one-IsAdmitted e ttl u v w h))
      | inr full ↦ rw (full, admit_spec) h
    ]

All-IsAdmitted :
    (e : EventId) (most ttl : ℕ) (q : List (ℕ × UserId)) (w : Rooms)
    → All (IsAdmitted e ttl (admit_spec e most ttl q w).1) (admit_spec e most ttl q w).0
unfolding admit_spec
All-IsAdmitted e most ttl [] w = ground arith
All-IsAdmitted e most ttl ((i, u) ∷ q) w = elim (Bool-cases (ltb (length (active e w)) most)) [
  | inl room ↦
      rw (room, admit_spec)
        (
          keeps-IsAdmitted e most ttl q (admit_one e ttl u w) u (admit_one_self e ttl u w),
          All-IsAdmitted e most ttl q (admit_one e ttl u w),
        )
  | inr full ↦ rw (full, admit_spec) tt
]

-- One call of `admit`, on every server and for every lifetime above zero: it answers, the admitted users are the
-- head of the queue in order and the rest stays behind them, each of them counts as active and
-- has a token with the full lifetime, and afterwards the places are full or nobody waits.
pub admit-cycle :
    (R : Redis schema) (i : AdmitInput) (s : R.State)
    → 0 < i.ttl_seconds
    → (us : List UserId) × ((admit R i s).0 ≡ ok us)
      × (us ++ users (waiting i.event_id (R.view (admit R i s).1))
          ≡ users (waiting i.event_id (R.view s)))
      × All (IsAdmitted i.event_id i.ttl_seconds (R.view (admit R i s).1)) us
      × ((i.cap ≤ length (active i.event_id (R.view (admit R i s).1)))
          ⊎ (users (waiting i.event_id (R.view (admit R i s).1)) ≡ []))
admit-cycle R i s p =
    let e = i.event_id in
    let w = R.view s in
    let w' = clean_spec e (active e w) w in
    let q = waiting e w' in
    let same : q ≡ waiting e w = ap (λ qs. qs (queue_key e)) (queues-clean_spec e (active e w) w) in
    let (answer, left) = admit-refines R i s p in
    (
      (cycle i w).0,
      answer,
      rw left (fifo e i.cap i.ttl_seconds q w' refl ∙ ap users same),
      rw left (All-IsAdmitted e i.cap i.ttl_seconds q w'),
      rw left (conserving e i.cap i.ttl_seconds q w' refl),
    )
