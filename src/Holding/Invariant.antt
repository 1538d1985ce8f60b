-- ===== src/Holding/Invariant.antt =====
-- Every call keeps the sets of held seats in step with the locks.

use kltn_high_concurrency_co.Prelude.{
  ℕ, ◌≤◌, ◌<◌, ◌≡◌, true, some, List, [], ◌∷◌, arith, ◌==◌, mem, Distinct, length, erase-Distinct,
  length-erase-le, mem-erase_ne, Bool-cases, All, Option-cases, inl, inr, leb,
}
use kltn_high_concurrency_co.Common.Ids.{UserId, EventId, SeatId}
use kltn_high_concurrency_co.Redis.Commands
use kltn_high_concurrency_co.Redis.{Redis}
use kltn_high_concurrency_co.SeatLock.Ports.{AcquireInput, ReleaseInput}
use kltn_high_concurrency_co.SeatLock.Adapter.{
  schema, HeldKey, lock_key, user_set_key, event_set_key,
}
use kltn_high_concurrency_co.SeatLock.Spec.{
  Holds, owner, held_by, held_in, hold, unhold, acquire_spec, release_spec,
}
use kltn_high_concurrency_co.SeatHold.Spec.{extend_spec, expire_all, first_lost}
use kltn_high_concurrency_co.Holding.{
  Call, acquires, releases, verifies, extends, drops, passes, IsTimed, HasLimit, step, run,
  step_spec, step-refines,
}

-- Sets hold no seat twice, a locked seat counts for its holder and its event, and no user passes
-- the limit.
pub record IsSound (max : ℕ) (h : Holds) : Type 0 where
  pub distinct : (k : HeldKey) → Distinct (h.sets k)
  pub listed :
      (e : EventId) (x : SeatId) (u : UserId)
      → owner e x h ≡ some u
      → (mem x (held_by e u h) ≡ true) × (mem x (held_in e h) ≡ true)
  pub limited : (e : EventId) (u : UserId) → length (held_by e u h) ≤ max

module _ (max : ℕ) (e : EventId) (x : SeatId) (u : UserId) (h : Holds) (v : IsSound max h) where
  hold-Distinct : (t : ℕ) (k : HeldKey) → Distinct ((hold e x u t h).sets k)
  hold-Distinct t (user_set_key e' u') =
      ground (arith, v.distinct (user_set_key e' u'), v.distinct (user_set_key e u))
  hold-Distinct t (event_set_key e') =
      ground (arith, v.distinct (event_set_key e'), v.distinct (event_set_key e))

  hold-listed :
      (t : ℕ) (e' : EventId) (x' : SeatId) (u' : UserId)
      → owner e' x' (hold e x u t h) ≡ some u'
      → (mem x' (held_by e' u' (hold e x u t h)) ≡ true)
        × (mem x' (held_in e' (hold e x u t h)) ≡ true)
  unfolding mem
  hold-listed t e' x' u' o = ground (arith, v.listed e' x' u')

  hold-IsSound : (t : ℕ) → length (held_by e u h) < max → IsSound max (hold e x u t h)
  hold-IsSound t room = record {
    distinct = hold-Distinct t;
    listed = hold-listed t;
    limited = λ e' u'. ground (arith, v.limited e' u');
  }

  unhold-Distinct : (k : HeldKey) → Distinct ((unhold e x u h).sets k)
  unhold-Distinct (user_set_key e' u') = ground (
    arith,
    v.distinct (user_set_key e' u'),
    erase-Distinct x (held_by e u h) (v.distinct (user_set_key e u)),
  )
  unhold-Distinct (event_set_key e') = ground (
    arith,
    v.distinct (event_set_key e'),
    erase-Distinct x (held_in e h) (v.distinct (event_set_key e)),
  )

  unhold-listed :
      (e' : EventId) (x' : SeatId) (u' : UserId)
      → owner e' x' (unhold e x u h) ≡ some u'
      → (mem x' (held_by e' u' (unhold e x u h)) ≡ true)
        × (mem x' (held_in e' (unhold e x u h)) ≡ true)
  unhold-listed e' x' u' o =
      ground (
        arith,
        v.listed e' x' u',
        mem-erase_ne x' x (held_by e u h),
        mem-erase_ne x' x (held_in e h),
      )

  unhold-IsSound : IsSound max (unhold e x u h)
  unhold-IsSound = record {
    distinct = unhold-Distinct;
    listed = unhold-listed;
    limited = λ e' u'. ground (arith, v.limited e' u', length-erase-le x (held_by e u h));
  }

  expire-IsSound : (t : ℕ) → IsSound max (Commands.expire schema (lock_key e x) t h)
  expire-IsSound t = record {
    distinct = v.distinct;
    listed = λ e' x' u' o. ground (arith, v.listed e' x' u');
    limited = v.limited;
  }

elapse-IsSound : (max n : ℕ) (h : Holds) → IsSound max h → IsSound max (Commands.elapse schema n h)
elapse-IsSound max n h v = record {
  distinct = v.distinct;
  listed = λ e x u o. ground (arith, v.listed e x u);
  limited = v.limited;
}

expire_all-IsSound :
    (max : ℕ) (e : EventId) (t : ℕ) (xs : List SeatId) (h : Holds)
    → IsSound max h
    → IsSound max (expire_all e t xs h)
unfolding expire_all
expire_all-IsSound max e t [] h v = v
expire_all-IsSound max e t (x ∷ xs) h v =
    expire_all-IsSound max e t xs (Commands.expire schema (lock_key e x) t h)
      (expire-IsSound max e x 0 h v t)

acquire_spec-IsSound :
    (max : ℕ) (i : AcquireInput) (h : Holds)
    → i.max_per_user ≡ max
    → IsSound max h
    → IsSound max (acquire_spec i h).1
unfolding acquire_spec
acquire_spec-IsSound max i h m v = elim (Option-cases (owner i.event_id i.seat_id h)) [
  | inr (u, o) ↦ rw (o, acquire_spec) v
  | inl o ↦
      rw (o, acquire_spec)
        (elim (Bool-cases (leb i.max_per_user (length (held_by i.event_id i.user_id h)))) [
          | inl full ↦ rw full v
          | inr room ↦
              rw room
                (hold-IsSound max i.event_id i.seat_id i.user_id h v i.ttl_seconds (ground arith))
        ])
]

release_spec-IsSound :
    (max : ℕ) (i : ReleaseInput) (h : Holds) → IsSound max h → IsSound max (release_spec i h).1
unfolding release_spec
release_spec-IsSound max i h v = elim (Option-cases (owner i.event_id i.seat_id h)) [
  | inl o ↦ rw (o, release_spec) v
  | inr (u, o) ↦
      rw (o, release_spec)
        (elim (Bool-cases (u == i.user_id)) [
          | inl mine ↦ rw mine (unhold-IsSound max i.event_id i.seat_id i.user_id h v)
          | inr other ↦ rw other v
        ])
]

extend_spec-IsSound :
    (max : ℕ) (e : EventId) (xs : List SeatId) (u : UserId) (t : ℕ) (h : Holds)
    → IsSound max h
    → IsSound max (extend_spec e xs u t h).1
unfolding extend_spec
extend_spec-IsSound max e xs u t h v = elim (Option-cases (first_lost e u h xs)) [
  | inl all ↦ rw (all, extend_spec) (expire_all-IsSound max e t xs h v)
  | inr (x, lost) ↦ rw (lost, extend_spec) v
]

-- One call, at the level of the specifications.
pub step_spec-IsSound :
    (max : ℕ) (h : Holds) (c : Call) → HasLimit max c → IsSound max h → IsSound max (step_spec h c)
unfolding step_spec
step_spec-IsSound max h (acquires i) m v = acquire_spec-IsSound max i h m v
step_spec-IsSound max h (releases i) m v = release_spec-IsSound max i h v
step_spec-IsSound max h (verifies e xs u) m v = v
step_spec-IsSound max h (extends e xs u t) m v = extend_spec-IsSound max e xs u t h v
step_spec-IsSound max h (drops e x u) m v =
    release_spec-IsSound max (record { event_id = e; seat_id = x; user_id = u }) h v
step_spec-IsSound max h (passes n) m v = elapse-IsSound max n h v

-- Whatever calls are made on whatever server, in any order and with any time passing between
-- them: if all lock requests carry the same limit and all lifetimes are above zero, then the
-- invariant `IsSound` of that limit is kept.
pub run-IsSound :
    (R : Redis schema) (max : ℕ) (s : R.State) (cs : List Call)
    → All IsTimed cs
    → All (HasLimit max) cs
    → IsSound max (R.view s)
    → IsSound max (R.view (run R s cs))
unfolding run
run-IsSound R max s [] t m v = v
run-IsSound R max s (c ∷ cs) t m v =
    run-IsSound R max (step R s c) cs t.1 m.1
      (rw (step-refines R s c t.0) (step_spec-IsSound max (R.view s) c m.0 v))
