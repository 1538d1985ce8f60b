-- ===== src/Holding/Limit.antt =====
-- What the invariant means for users: the limit on seats, and that a hold is exclusive.
use kltn_high_concurrency_co.Prelude.{
  ℕ, ◌+◌, ◌-◌, ◌≤◌, ◌<◌, ◌≡◌, inl, inr, refl, true, false, none, some, List, [], ◌∷◌, arith, ◌==◌,
  mem, length, Distinct, All, length-le_of_All-mem, Option-cases,
}
use kltn_high_concurrency_co.Common.Ids.{UserId, EventId, SeatId}
use kltn_high_concurrency_co.Redis.Commands
use kltn_high_concurrency_co.Redis.Commands.{Entry}
use kltn_high_concurrency_co.Redis.{Redis}
use kltn_high_concurrency_co.SeatLock.Ports.{AcquireInput, ReleaseInput}
use kltn_high_concurrency_co.SeatLock.Adapter.{schema, lock_key}
use kltn_high_concurrency_co.SeatLock.Spec.{Holds, owner, held_by, acquire_spec, release_spec}
use kltn_high_concurrency_co.SeatHold.Spec.{extend_spec, expire_all, first_lost, owns}
use kltn_high_concurrency_co.Holding.{
  Call, acquires, releases, verifies, extends, drops, passes, IsTimed, HasLimit, step, run,
  step_spec, step-refines,
}
use kltn_high_concurrency_co.Holding.Invariant.{IsSound, run-IsSound}

All-listed :
    (max : ℕ) (e : EventId) (u : UserId) (h : Holds) (xs : List SeatId)
    → IsSound max h
    → All (λ x. owner e x h ≡ some u) xs
    → All (λ x. mem x (held_by e u h) ≡ true) xs
All-listed max e u h [] v o = tt
All-listed max e u h (x ∷ xs) v o = ((v.listed e x u o.0).0, All-listed max e u h xs v o.1)

-- Whatever calls are made from a sound state, with one limit and lifetimes above zero, no user ever
-- holds more different seats of one event than the limit.
pub run-at_most_max :
    (R : Redis schema) (max : ℕ) (s : R.State) (cs : List Call) (e : EventId) (u : UserId)
    (xs : List SeatId)
    → All IsTimed cs
    → All (HasLimit max) cs
    → IsSound max (R.view s)
    → Distinct xs
    → All (λ x. owner e x (R.view (run R s cs)) ≡ some u) xs
    → length xs ≤ max
run-at_most_max R max s cs e u xs t m v d o =
    let h = R.view (run R s cs) in
    let w = run-IsSound R max s cs t m v in
    omega (
      arith,
      length-le_of_All-mem xs (held_by e u h) d (All-listed max e u h xs w o),
      w.limited e u,
    )

-- The lock of a seat, with the seconds that it has left.
abbrev pub Locked : EventId → SeatId → UserId → ℕ → Holds → Type 0
Locked e x u t h = h.strings (lock_key e x) ≡ some (record { value = u; left = some t })

-- The call is not made for the user.
abbrev pub IsByOther : UserId → Call → Type 0
IsByOther u (acquires i) = (i.user_id == u) ≡ false
IsByOther u (releases i) = (i.user_id == u) ≡ false
IsByOther u (extends e xs v t) = (v == u) ≡ false
IsByOther u (drops e x v) = (v == u) ≡ false
IsByOther u _ = Unit

-- The seconds that pass in a history.
abbrev pub seconds : Call → ℕ
seconds (passes n) = n
seconds _ = 0

unfoldable pub elapsed : List Call → ℕ
elapsed [] = 0
elapsed (c ∷ cs) = seconds c + elapsed cs

module _ (e : EventId) (x : SeatId) (u : UserId) where
  owns-expire :
      (e' : EventId) (v : UserId) (y z : SeatId) (t : ℕ) (h : Holds)
      → owns e' v (Commands.expire schema (lock_key e' y) t h) z ≡ owns e' v h z
  owns-expire e' v y z t h = ground arith

  first_lost-expire :
      (e' : EventId) (v : UserId) (y : SeatId) (t : ℕ) (h : Holds) (ys : List SeatId)
      → first_lost e' v (Commands.expire schema (lock_key e' y) t h) ys ≡ first_lost e' v h ys
  unfolding first_lost
  first_lost-expire e' v y t h [] = refl
  first_lost-expire e' v y t h (z ∷ ys) =
      rw (owns-expire e' v y z t h, first_lost-expire e' v y t h ys)

  expire_all-Locked :
      (e' : EventId) (v : UserId) (t' t : ℕ) (ys : List SeatId) (h : Holds)
      → (v == u) ≡ false
      → first_lost e' v h ys ≡ none
      → Locked e x u t h
      → Locked e x u t (expire_all e' t' ys h)
  unfolding expire_all first_lost
  expire_all-Locked e' v t' t [] h other all l = l
  expire_all-Locked e' v t' t (y ∷ ys) h other all l =
      expire_all-Locked e' v t' t ys (Commands.expire schema (lock_key e' y) t' h) other
        (rw (first_lost-expire e' v y t' h ys) (ground arith)) (ground arith)

  acquire_spec-Locked :
      (i : AcquireInput) (t : ℕ) (h : Holds)
      → (i.user_id == u) ≡ false
      → Locked e x u t h
      → Locked e x u t (acquire_spec i h).1
  unfolding acquire_spec
  acquire_spec-Locked i t h other l = ground arith

  release_spec-Locked :
      (i : ReleaseInput) (t : ℕ) (h : Holds)
      → (i.user_id == u) ≡ false
      → Locked e x u t h
      → Locked e x u t (release_spec i h).1
  unfolding release_spec
  release_spec-Locked i t h other l = ground arith

  extend_spec-Locked :
      (e' : EventId) (ys : List SeatId) (v : UserId) (t' t : ℕ) (h : Holds)
      → (v == u) ≡ false
      → Locked e x u t h
      → Locked e x u t (extend_spec e' ys v t' h).1
  unfolding extend_spec
  extend_spec-Locked e' ys v t' t h other l = elim (Option-cases (first_lost e' v h ys)) [
    | inl all ↦ rw (all, extend_spec) (expire_all-Locked e' v t' t ys h other all l)
    | inr (y, lost) ↦ rw (lost, extend_spec) l
  ]

  unspent : (t : ℕ) (h : Holds) → Locked e x u t h → Locked e x u (t - 0) h
  unspent t h l = let same : t ≡ t - 0 = omega arith in rw (← same) l

  step_spec-Locked :
      (c : Call) (t : ℕ) (h : Holds)
      → IsByOther u c
      → seconds c < t
      → Locked e x u t h
      → Locked e x u (t - seconds c) (step_spec h c)
  unfolding step_spec
  step_spec-Locked (acquires i) t h o p l =
      unspent t (acquire_spec i h).1 (acquire_spec-Locked i t h o l)
  step_spec-Locked (releases i) t h o p l =
      unspent t (release_spec i h).1 (release_spec-Locked i t h o l)
  step_spec-Locked (verifies e' ys v) t h o p l = unspent t h l
  step_spec-Locked (extends e' ys v t') t h o p l =
      unspent t (extend_spec e' ys v t' h).1 (extend_spec-Locked e' ys v t' t h o l)
  step_spec-Locked (drops e' y v) t h o p l =
      unspent t (release_spec (record { event_id = e'; seat_id = y; user_id = v }) h).1
        (release_spec-Locked (record { event_id = e'; seat_id = y; user_id = v }) t h o l)
  step_spec-Locked (passes n) t h o p l = ground arith

  -- A hold is exclusive: calls that are made for other users, in any number and order and with lifetimes above zero, on whatever
  -- server, leave the lock of a seat to its holder as long as fewer seconds pass than it has left,
  -- and take from it exactly the seconds that pass.
  pub run-Locked :
      (R : Redis schema) (t : ℕ) (s : R.State) (cs : List Call)
      → All IsTimed cs
      → All (IsByOther u) cs
      → elapsed cs < t
      → Locked e x u t (R.view s)
      → Locked e x u (t - elapsed cs) (R.view (run R s cs))
  unfolding run elapsed
  run-Locked R t s [] m o p l = unspent t (R.view s) l
  run-Locked R t s (c ∷ cs) m o p l =
      let after : Locked e x u (t - seconds c) (R.view (step R s c)) =
        rw (step-refines R s c m.0) (step_spec-Locked c t (R.view s) o.0 (omega arith) l) in
      let sum : t - seconds c - elapsed cs ≡ t - (seconds c + elapsed cs) = omega arith in
      rw (← sum) (run-Locked R (t - seconds c) (step R s c) cs m.1 o.1 (omega arith) after)
