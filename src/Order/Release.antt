-- ===== src/Order/Release.antt =====
-- Releasing the seats of an order, one after the other.
use kltn_high_concurrency_co.Prelude.{
  ◌≡◌, ◌∙◌, refl, false, none, List, [], ◌∷◌, arith, All, ==_refl,
}
use kltn_high_concurrency_co.Common.Ids.{UserId, EventId, SeatId, OrderId, Millis}
use kltn_high_concurrency_co.Common.Exception.{ok}
use kltn_high_concurrency_co.Common.Action.{Action}
use kltn_high_concurrency_co.Redis.{Redis}
use kltn_high_concurrency_co.SeatLock.Adapter.{schema}
use kltn_high_concurrency_co.SeatLock.Spec.{Holds, owner, release_spec}
use kltn_high_concurrency_co.SeatHold.Adapter.{redis_seat_hold_adapter, release_hold}
use kltn_high_concurrency_co.SeatHold.Spec.{owns, release_hold-refines}
use kltn_high_concurrency_co.Holding.Drift.{release_hold-free}
use kltn_high_concurrency_co.Order.Repository.{Tables, Database, prisma_order_adapter}
use kltn_high_concurrency_co.Order.UseCases.{release_each}

-- Nobody holds a seat.
abbrev pub IsFree : Holds → Type 0
IsFree h = (e : EventId) (x : SeatId) → owner e x h ≡ none

-- After a release the user does not hold the seat, and gains no other.
release_spec-lost :
    (e : EventId) (x : SeatId) (u : UserId) (h : Holds)
    → owns e u (release_spec (record { event_id = e; seat_id = x; user_id = u }) h).1 x ≡ false
unfolding release_spec
release_spec-lost e x u h = ground (arith, ==_refl x, ==_refl e, ==_refl u)

release_spec-keeps_lost :
    (e : EventId) (x y : SeatId) (u : UserId) (h : Holds)
    → owns e u h y ≡ false
    → owns e u (release_spec (record { event_id = e; seat_id = x; user_id = u }) h).1 y ≡ false
unfolding release_spec
release_spec-keeps_lost e x y u h lost = ground arith

module _ (R : Redis schema) (T : Tables) (fresh : OrderId) (now : Millis) where
  abbrev pub release_here :
      EventId → UserId → List SeatId → Action (R.State × Database T) (Unit {0})
  release_here = release_each (prisma_order_adapter T fresh now R.State) (redis_seat_hold_adapter R)

  pub release_each-free :
      (e : EventId) (u : UserId) (xs : List SeatId) (s : R.State) (d : Database T)
      → IsFree (R.view s)
      → R.view (release_here e u xs (s, d)).1.0 ≡ R.view s
  unfolding release_each release_hold
  release_each-free e u [] s d free = refl
  release_each-free e u (x ∷ xs) s d free =
      let same = release_hold-free R e x u s (free e x) in
      release_each-free e u xs (release_hold R e x u s).1 d (rw same free) ∙ same

  pub release_each-keeps_lost :
      (e : EventId) (u : UserId) (xs : List SeatId) (y : SeatId) (s : R.State) (d : Database T)
      → owns e u (R.view s) y ≡ false
      → owns e u (R.view (release_here e u xs (s, d)).1.0) y ≡ false
  unfolding release_each release_hold
  release_each-keeps_lost e u [] y s d lost = lost
  release_each-keeps_lost e u (x ∷ xs) y s d lost =
      release_each-keeps_lost e u xs y (release_hold R e x u s).1 d
        (rw (release_hold-refines R e u x s) (release_spec-keeps_lost e x y u (R.view s) lost))

  pub release_each-lost :
      (e : EventId) (u : UserId) (xs : List SeatId) (s : R.State) (d : Database T)
      → All (λ x. owns e u (R.view (release_here e u xs (s, d)).1.0) x ≡ false) xs
  unfolding release_each release_hold
  release_each-lost e u [] s d = tt
  release_each-lost e u (x ∷ xs) s d =
      let s' = (release_hold R e x u s).1 in
      (
        release_each-keeps_lost e u xs x s' d
            (rw (release_hold-refines R e u x s) (release_spec-lost e x u (R.view s))),
        release_each-lost e u xs s' d,
      )

  pub release_each-answers :
      (e : EventId) (u : UserId) (xs : List SeatId) (s : R.State) (d : Database T)
      → ((release_here e u xs (s, d)).0 ≡ ok tt) × ((release_here e u xs (s, d)).1.1 ≡ d)
  unfolding release_each release_hold
  release_each-answers e u [] s d = (refl, refl)
  release_each-answers e u (x ∷ xs) s d = release_each-answers e u xs (release_hold R e x u s).1 d
