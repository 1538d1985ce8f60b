-- ===== src/SeatHold/Spec.antt =====
-- What the seat-hold adapter's scripts do, as seen by clients of the server.
use kltn_high_concurrency_co.Prelude.{
  ℕ, suc, ◌<◌, ◌+◌, ◌≡◌, refl, ap, ◌∙◌, Bool, true, false, inl, inr, Option, none, some, List, [],
  ◌∷◌, ◌==◌, if◌then◌else◌, arith, get_elem?, Bool-cases, Option-cases,
}
use kltn_high_concurrency_co.Common.Ids.{UserId, EventId, SeatId}
use kltn_high_concurrency_co.Common.Exception.{ok}
use kltn_high_concurrency_co.Redis.Commands
use kltn_high_concurrency_co.Redis.{Redis}
use kltn_high_concurrency_co.SeatLock.Adapter.{schema, lock_key, release}
use kltn_high_concurrency_co.SeatLock.Spec.{Holds, owner, release_spec, release-refines}
use kltn_high_concurrency_co.SeatHold.Adapter.{
  VerifyHeldResult, lock_keys, not_owned, verify_result, verify_lua, any_lost, expire_each,
  verify_held, extend_hold, release_hold,
}

-- The user holds the seat.
abbrev pub owns : EventId → UserId → Holds → SeatId → Bool
owns e u h x = elim (owner e x h) [ none ↦ false | some o ↦ o == u ]

-- The first seat of a list that the user does not hold.
unfoldable pub first_lost : EventId → UserId → Holds → List SeatId → Option SeatId
first_lost e u h [] = none
first_lost e u h (x ∷ xs) = if owns e u h x then first_lost e u h xs else some x

unfoldable pub expire_all : EventId → ℕ → List SeatId → Holds → Holds
expire_all e t [] h = h
expire_all e t (x ∷ xs) h = expire_all e t xs (Commands.expire schema (lock_key e x) t h)

abbrev pub verify_spec : Option SeatId → VerifyHeldResult
verify_spec none = record { is_ok = true; failed_seat_id = none }
verify_spec (some x) = record { is_ok = false; failed_seat_id = some x }

-- All seats or none.
unfoldable pub extend_spec : EventId → List SeatId → UserId → ℕ → Holds → Bool × Holds
extend_spec e xs u t h = elim (first_lost e u h xs) [
  | none ↦ (true, expire_all e t xs h)
  | some x ↦ (false, h)
]

module _ (R : Redis schema) (e : EventId) (u : UserId) where
  not_owned_lem :
      (x : SeatId) (s : R.State)
      → not_owned R (lock_key e x) u s ≡ (if owns e u (R.view s) x then false else true)
  not_owned_lem x s = ground (arith, R.get_lem (lock_key e x) s)

  -- a suffix of the list, reached at index i + 1
  verify_lua_lem :
      (all xs : List SeatId) (i : ℕ) (s : R.State)
      → ((j : ℕ) → get_elem? all (i + j) ≡ get_elem? xs j)
      → verify_result all (verify_lua R (suc i) (lock_keys e xs) u s)
        ≡ verify_spec (first_lost e u (R.view s) xs)
  unfolding verify_lua first_lost
  verify_lua_lem all [] i s h = refl
  verify_lua_lem all (x ∷ xs) i s h = elim (Bool-cases (owns e u (R.view s) x)) [
    | inl mine ↦
        rw (not_owned_lem x s, mine)
          (verify_lua_lem all xs (suc i) s (λ j. ap (get_elem? all) (omega arith) ∙ h (suc j)))
    | inr lost ↦
        rw (not_owned_lem x s, lost)
          (ap (λ o. record { is_ok = false; failed_seat_id = o })
            (ap (get_elem? all) (omega arith) ∙ h 0))
  ]

  any_lost_lem :
      (xs : List SeatId) (s : R.State)
      → any_lost R (lock_keys e xs) u s
        ≡ elim (first_lost e u (R.view s) xs) [ none ↦ false | some x ↦ true ]
  unfolding any_lost first_lost
  any_lost_lem [] s = refl
  any_lost_lem (x ∷ xs) s = ground (arith, not_owned_lem x s, any_lost_lem xs s)

  view-expire_each :
      (xs : List SeatId) (t : ℕ) (s : R.State)
      → 0 < t
      → R.view (expire_each R (lock_keys e xs) t s) ≡ expire_all e t xs (R.view s)
  unfolding expire_each expire_all
  view-expire_each [] t s p = refl
  view-expire_each (x ∷ xs) t s p =
      rw (view-expire_each xs t (R.expire (lock_key e x) t s) p, R.view-expire (lock_key e x) t s p)

  -- On every server, `verifyHeld` answers ok exactly when no seat of the list is lost to the user,
  -- and otherwise names the first that is; it changes nothing.
  pub verify_held-refines :
      (xs : List SeatId) (s : R.State)
      → verify_held R e xs u s ≡ (ok (verify_spec (first_lost e u (R.view s) xs)), s)
  unfolding verify_held
  verify_held-refines xs s =
      ap (λ r. (ok r, s)) (verify_lua_lem xs xs 0 s (λ j. ap (get_elem? xs) (omega arith)))

  -- On every server and for every lifetime above zero, `extendHold` resets the time of all the
  -- locks if the user holds them all, and else changes nothing and answers false.
  pub extend_hold-refines :
      (xs : List SeatId) (t : ℕ) (s : R.State)
      → 0 < t
      → ((extend_hold R e xs u t s).0 ≡ ok (extend_spec e xs u t (R.view s)).0)
        × (R.view (extend_hold R e xs u t s).1 ≡ (extend_spec e xs u t (R.view s)).1)
  unfolding extend_hold extend_spec
  extend_hold-refines xs t s p = elim (Option-cases (first_lost e u (R.view s) xs)) [
    | inl all ↦ ground (arith, any_lost_lem xs s, all, view-expire_each xs t s p)
    | inr (x, lost) ↦ ground (arith, any_lost_lem xs s, lost)
  ]

  -- `releaseHold` changes what a release by the same user changes.
  pub release_hold-refines :
      (x : SeatId) (s : R.State)
      → R.view (release_hold R e x u s).1
        ≡ (release_spec (record { event_id = e; seat_id = x; user_id = u }) (R.view s)).1
  unfolding release_hold release
  release_hold-refines x s =
      (release-refines R (record { event_id = e; seat_id = x; user_id = u }) s).1
