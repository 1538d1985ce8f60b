-- ===== src/Queue/Progress.antt =====
-- A user who waits is let in after enough rounds of the scheduler, when the users that are let in come
-- to the end of their tokens.
use kltn_high_concurrency_co.Prelude.{
  ℕ, ◌+◌, ◌≤◌, ◌≡◌, refl, Bool, true, false, Option, none, some, List, [], ◌∷◌, ltb, leb, arith,
  length, Bool-cases, inl, inr, ==_refl, erase,
}
use kltn_high_concurrency_co.Common.Ids.{UserId, EventId}
use kltn_high_concurrency_co.Redis.Commands
use kltn_high_concurrency_co.Redis.Commands.{Entry, rest, age, score_of}
use kltn_high_concurrency_co.Queue.Adapter.{schema, token_key, active_key}
use kltn_high_concurrency_co.Queue.Spec.{
  Rooms, active, has_token, admit_one, clean_spec, admit_spec, join_spec,
}

-- A token that has at most the lifetime left.
abbrev pub within : ℕ → Option (Entry ℕ) → Bool
within ttl none = true
within ttl (some e) = elim e.left [ none ↦ false | some t ↦ leb t ttl ]

-- All tokens of the event end within the lifetime.
abbrev pub IsShort : EventId → ℕ → Rooms → Type 0
IsShort e ttl w = (u : UserId) → within ttl (w.strings (token_key e u)) ≡ true

pub join_spec-IsShort :
    (e e' : EventId) (u : UserId) (ttl : ℕ) (w : Rooms)
    → IsShort e ttl w
    → IsShort e ttl (join_spec e' u w)
unfolding join_spec
join_spec-IsShort e e' u ttl w h v = ground (arith, h v)

pub elapse-IsShort :
    (e : EventId) (ttl n : ℕ) (w : Rooms)
    → IsShort e ttl w
    → IsShort e ttl (Commands.elapse schema n w)
elapse-IsShort e ttl n w h v = ground (arith, h v)

pub strings-clean_spec :
    (e : EventId) (ms : List UserId) (w : Rooms) → (clean_spec e ms w).strings ≡ w.strings
unfolding clean_spec
strings-clean_spec e [] w = refl
strings-clean_spec e (m ∷ ms) w = elim (Bool-cases (has_token e m w)) [
  | inl live ↦ rw (live, clean_spec) (strings-clean_spec e ms w)
  | inr dead ↦
      rw (dead, clean_spec) (strings-clean_spec e ms (Commands.srem schema (active_key e) m w))
]

pub admit_spec-IsShort :
    (e : EventId) (most ttl : ℕ) (q : List (ℕ × UserId)) (w : Rooms)
    → IsShort e ttl w
    → IsShort e ttl (admit_spec e most ttl q w).1
unfolding admit_spec
admit_spec-IsShort e most ttl [] w h = λ v. ground (arith, h v)
admit_spec-IsShort e most ttl ((i, u) ∷ q) w h =
    elim (Bool-cases (ltb (length (active e w)) most)) [
      | inl room ↦
          rw (room, admit_spec)
            (admit_spec-IsShort e most ttl q (admit_one e ttl u w) (λ v. ground (arith, h v)))
      | inr full ↦ rw (full, admit_spec) h
    ]

-- when the lifetime has passed, no token is alive
pub expired :
    (e : EventId) (ttl n : ℕ) (w : Rooms) (u : UserId)
    → IsShort e ttl w
    → ttl ≤ n
    → has_token e u (Commands.elapse schema n w) ≡ false
expired e ttl n w u h p = ground (arith, h u, p)

-- the cleaning leaves nobody whose token has ended
pub active-clean_spec :
    (e : EventId) (ms : List UserId) (w : Rooms)
    → ((u : UserId) → has_token e u w ≡ false)
    → active e w ≡ ms
    → active e (clean_spec e ms w) ≡ []
unfolding clean_spec erase
active-clean_spec e [] w dead h = h
active-clean_spec e (m ∷ ms) w dead h =
    rw (dead m, clean_spec)
      (active-clean_spec e ms (Commands.srem schema (active_key e) m w) dead
        (ground (arith, h, ==_refl e, ==_refl m)))

-- a cycle adds at most those that it admits
pub active-grows :
    (e : EventId) (most ttl : ℕ) (q : List (ℕ × UserId)) (w : Rooms)
    → length (active e (admit_spec e most ttl q w).1)
      ≤ length (active e w) + length (admit_spec e most ttl q w).0
unfolding admit_spec
active-grows e most ttl [] w = ground arith
active-grows e most ttl ((i, u) ∷ q) w = elim (Bool-cases (ltb (length (active e w)) most)) [
  | inl room ↦
      let one : length (active e (admit_one e ttl u w)) ≤ length (active e w) + 1 =
        ground (arith, ==_refl e) in
      rw (room, admit_spec) (omega (arith, one, active-grows e most ttl q (admit_one e ttl u w)))
  | inr full ↦ rw (full, admit_spec) (omega arith)
]
