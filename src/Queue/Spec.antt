-- ===== src/Queue/Spec.antt =====
-- What one atomic call of the queue store does to the keys that clients can observe.
use mathlib.Core.Option.{get_or}
use kltn_high_concurrency_co.Prelude.{
  ℕ, zero, suc, ◌+◌, ◌<◌, ◌≡◌, ◌∙◌, ap, subst, refl, Bool, Option, none, some, List, [], ◌∷◌, ltb,
  if◌then◌else◌, arith, length, map, ==_refl, Bool-cases, inl, inr,
}
use kltn_high_concurrency_co.Common.Ids.{UserId, EventId}
use kltn_high_concurrency_co.Common.Exception.{ok}
use kltn_high_concurrency_co.Redis.Commands
use kltn_high_concurrency_co.Redis.Commands.{Keyspace, Entry, first, rest}
use kltn_high_concurrency_co.Redis.{Redis}
use kltn_high_concurrency_co.Queue.Ports.{AdmitInput}
use kltn_high_concurrency_co.Queue.Adapter.{
  schema, seq_key, token_key, active_key, queue_key, cons_admitted, enqueue, join, clean,
  admit_loop, admit_lua, admit,
}

abbrev pub Rooms : Type 0
Rooms = Keyspace schema

-- The queue of an event with its scores, and its users from the head.
abbrev pub waiting : EventId → Rooms → List (ℕ × UserId)
waiting e w = w.queues (queue_key e)

abbrev pub users : List (ℕ × UserId) → List UserId
users q = map (λ p. p.1) q

-- The users that count as active, and whether a user's token is alive.
abbrev pub active : EventId → Rooms → List UserId
active e w = w.sets (active_key e)

abbrev pub has_token : EventId → UserId → Rooms → Bool
has_token e u w = Commands.exists schema (token_key e u) w

abbrev pub next_seq : EventId → Rooms → ℕ
next_seq e w = Commands.count schema (seq_key e) w + 1

unfoldable pub join_spec : EventId → UserId → Rooms → Rooms
join_spec e u w = elim (Commands.zscore schema (queue_key e) u w) [
  | some score ↦ w
  | none ↦ Commands.zadd schema (queue_key e) (next_seq e w) u (Commands.incr schema (seq_key e) w)
]

-- One user leaves the head of the queue with a token.
abbrev pub admit_one : EventId → ℕ → UserId → Rooms → Rooms
admit_one e ttl u w =
    Commands.sadd schema (active_key e) u
      (Commands.set_ex schema (token_key e u) 1 ttl (Commands.zpopmin schema (queue_key e) w))

-- The active users without a token are dropped.
unfoldable pub clean_spec : EventId → List UserId → Rooms → Rooms
clean_spec e [] w = w
clean_spec e (m ∷ ms) w =
    clean_spec e ms (if has_token e m w then w else Commands.srem schema (active_key e) m w)

-- Users are admitted from the head of the queue while a place is free.
unfoldable pub admit_spec : EventId → ℕ → ℕ → List (ℕ × UserId) → Rooms → List UserId × Rooms
admit_spec e cap ttl [] w =
    if ltb (length (active e w)) cap then ([], Commands.zpopmin schema (queue_key e) w) else ([], w)
admit_spec e cap ttl ((i, u) ∷ q) w =
    let (us, w') = admit_spec e cap ttl q (admit_one e ttl u w) in
    if ltb (length (active e w)) cap then (u ∷ us, w') else ([], w)

-- A whole cycle for one event.
abbrev pub cycle : AdmitInput → Rooms → List UserId × Rooms
cycle i w =
    let w' = clean_spec i.event_id (active i.event_id w) w in
    admit_spec i.event_id i.cap i.ttl_seconds (waiting i.event_id w') w'

pub queues-clean_spec :
    (e : EventId) (ms : List UserId) (w : Rooms) → (clean_spec e ms w).queues ≡ w.queues
unfolding clean_spec
queues-clean_spec e [] w = refl
queues-clean_spec e (m ∷ ms) w = elim (Bool-cases (has_token e m w)) [
  | inl live ↦ rw (live, clean_spec) (queues-clean_spec e ms w)
  | inr dead ↦
      rw (dead, clean_spec) (queues-clean_spec e ms (Commands.srem schema (active_key e) m w))
]

module _ (R : Redis schema) where
  enqueue-refines :
      (e : EventId) (u : UserId) (s : R.State)
      → R.view (enqueue R (seq_key e) (queue_key e) u s) ≡ join_spec e u (R.view s)
  unfolding enqueue join_spec
  enqueue-refines e u s = ground (
    arith,
    R.zscore_lem (queue_key e) u s,
    R.incr_lem (seq_key e) s,
    R.view-incr (seq_key e) s,
    R.view-zadd (queue_key e) (R.incr (seq_key e) s).0 u (R.incr (seq_key e) s).1,
  )

  -- On every server `join` answers the rank and the total of the queue that it leaves.
  pub join-refines :
      (e : EventId) (u : UserId) (s : R.State)
      → (R.view (join R e u s).1 ≡ join_spec e u (R.view s))
        × ((join R e u s).0
            ≡ ok (record {
              rank = get_or (Commands.zrank schema (queue_key e) u (join_spec e u (R.view s))) 0;
              total = length (waiting e (join_spec e u (R.view s)));
            }))
  unfolding join
  join-refines e u s =
      let s' = enqueue R (seq_key e) (queue_key e) u s in
      (
        enqueue-refines e u s,
        rw (R.zrank_lem (queue_key e) u s', R.zcard_lem (queue_key e) s', enqueue-refines e u s)
            refl,
      )

  clean-refines :
      (e : EventId) (ms : List UserId) (s : R.State)
      → R.view (clean R e (active_key e) ms s) ≡ clean_spec e ms (R.view s)
  unfolding clean clean_spec
  clean-refines e [] s = refl
  clean-refines e (m ∷ ms) s = elim (Bool-cases (has_token e m (R.view s))) [
    | inl live ↦ rw (R.exists_lem (token_key e m) s, live) (clean-refines e ms s)
    | inr dead ↦
        rw (R.exists_lem (token_key e m) s, dead)
          (clean-refines e ms (R.srem (active_key e) m s)
            ∙ ap (clean_spec e ms) (R.view-srem (active_key e) m s))
  ]

  -- what the loop gives on the queue q
  abbrev Gives : Option (List UserId × R.State) → List UserId × Rooms → Type 0
  Gives r o = (s : R.State) × (r ≡ some (o.0, s)) × (R.view s ≡ o.1)

  -- the state after one round of the loop
  abbrev next_state : EventId → ℕ → UserId → R.State → R.State
  next_state e ttl u s =
      R.sadd (active_key e) u (R.set_ex (token_key e u) 1 ttl (R.zpopmin (queue_key e) s).1)

  view-next_state :
      (e : EventId) (ttl : ℕ) (u : UserId) (s : R.State)
      → 0 < ttl
      → R.view (next_state e ttl u s) ≡ admit_one e ttl u (R.view s)
  view-next_state e ttl u s p =
      let popped = (R.zpopmin (queue_key e) s).1 in
      R.view-sadd (active_key e) u (R.set_ex (token_key e u) 1 ttl popped)
      ∙ ap (Commands.sadd schema (active_key e) u) (
          R.view-set_ex (token_key e u) 1 ttl popped p
          ∙ ap (Commands.set_ex schema (token_key e u) 1 ttl) (R.view-zpopmin (queue_key e) s))

  loop-empty :
      (e : EventId) (most ttl fuel : ℕ) (s : R.State)
      → waiting e (R.view s) ≡ []
      → Gives
          (admit_loop R (suc fuel) e (queue_key e) (active_key e) most ttl s)
          (admit_spec e most ttl [] (R.view s))
  unfolding admit_loop admit_spec
  loop-empty e most ttl fuel s w =
      let scard = R.scard_lem (active_key e) s in
      let none_left = R.zpopmin_lem (queue_key e) s ∙ ap first w in
      elim (Bool-cases (ltb (length (active e (R.view s))) most)) [
        | inl room ↦ (
          (R.zpopmin (queue_key e) s).1,
          rw (scard, room, none_left, admit_loop) refl,
          rw room (R.view-zpopmin (queue_key e) s),
        )
        | inr full ↦ (s, rw (scard, full) refl, rw full refl)
      ]

  loop-round :
      (e : EventId) (most ttl fuel i : ℕ) (u : UserId) (q : List (ℕ × UserId)) (s : R.State)
      → waiting e (R.view s) ≡ (i, u) ∷ q
      → Gives
          (admit_loop R fuel e (queue_key e) (active_key e) most ttl (next_state e ttl u s))
          (admit_spec e most ttl q (admit_one e ttl u (R.view s)))
      → Gives
          (admit_loop R (suc fuel) e (queue_key e) (active_key e) most ttl s)
          (admit_spec e most ttl ((i, u) ∷ q) (R.view s))
  unfolding admit_loop admit_spec
  loop-round e most ttl fuel i u q s w (s2, a, b) =
      let scard = R.scard_lem (active_key e) s in
      let head_is = R.zpopmin_lem (queue_key e) s ∙ ap first w in
      elim (Bool-cases (ltb (length (active e (R.view s))) most)) [
        | inl room ↦ (s2, rw (scard, room, head_is, admit_loop) (ap (cons_admitted u) a), rw room b)
        | inr full ↦ (s, rw (scard, full) refl, rw full refl)
      ]

  loop-refines :
      (e : EventId) (most ttl : ℕ) (q : List (ℕ × UserId)) (fuel : ℕ) (s : R.State)
      → length q < fuel
      → waiting e (R.view s) ≡ q
      → 0 < ttl
      → Gives
          (admit_loop R fuel e (queue_key e) (active_key e) most ttl s)
          (admit_spec e most ttl q (R.view s))
  loop-refines e most ttl q zero s f w p = absurd (omega arith)
  loop-refines e most ttl [] (suc fuel) s f w p = loop-empty e most ttl fuel s w
  loop-refines e most ttl ((i, u) ∷ q) (suc fuel) s f w p =
      let view1 = view-next_state e ttl u s p in
      loop-round e most ttl fuel i u q s w (
        subst
          (λ v.
            Gives (admit_loop R fuel e (queue_key e) (active_key e) most ttl (next_state e ttl u s))
              (admit_spec e most ttl q v))
          view1
          (loop-refines e most ttl q fuel (next_state e ttl u s) (omega arith)
            (rw (view1, ==_refl e) (ap rest w)) p))

  -- On every server the loop of `admit` ends, whatever the queue holds: the fuel suffices. For every
  -- lifetime above zero the users that it answers and the keys that it leaves are those of one
  -- atomic cycle: clean the active set, then admit from the head of the queue.
  pub admit-refines :
      (i : AdmitInput) (s : R.State)
      → 0 < i.ttl_seconds
      → ((admit R i s).0 ≡ ok (cycle i (R.view s)).0)
        × (R.view (admit R i s).1 ≡ (cycle i (R.view s)).1)
  unfolding admit admit_lua
  admit-refines i s p =
      let e = i.event_id in
      let cleaned = clean R e (active_key e) (R.smembers (active_key e) s) s in
      let w' = clean_spec e (active e (R.view s)) (R.view s) in
      let view1 : R.view cleaned ≡ w' =
        clean-refines e (R.smembers (active_key e) s) s
        ∙ ap (λ ms. clean_spec e ms (R.view s)) (R.smembers_lem (active_key e) s) in
      let queue1 : waiting e (R.view cleaned) ≡ waiting e w' = ap (waiting e) view1 in
      let fits : length (waiting e w') < suc (R.zcard (queue_key e) s) = omega (
        arith,
        R.zcard_lem (queue_key e) s,
        ap (λ qs. length (qs (queue_key e))) (queues-clean_spec e (active e (R.view s)) (R.view s)),
      ) in
      let (s2, a, b) =
        loop-refines e i.cap i.ttl_seconds (waiting e w') (suc (R.zcard (queue_key e) s)) cleaned
          fits queue1 p in
      (
        rw (a, admit, admit_lua)
            (ap (λ v. ok ((admit_spec e i.cap i.ttl_seconds (waiting e w') v).0)) view1),
        rw (a, admit, admit_lua)
            (b ∙ ap (λ v. (admit_spec e i.cap i.ttl_seconds (waiting e w') v).1) view1),
      )
