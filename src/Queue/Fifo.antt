-- ===== src/Queue/Fifo.antt =====
-- Who joins goes to the end of the queue; who waits already keeps the place.

use kltn_high_concurrency_co.Prelude.{
  ℕ, suc, ◌+◌, ◌<◌, ◌≡◌, ◌∙◌, sym, ap, refl, false, none, some, List, [], ◌∷◌, ◌++◌, ltb, ◌==◌,
  arith, length, All, ==_refl, ◌&&◌, ◌||◌, get_elem?, Bool-cases, ==→eq, inl, inr, length-append,
}
use kltn_high_concurrency_co.Common.Ids.{UserId, EventId}
use kltn_high_concurrency_co.Common.Exception.{ok}
use kltn_high_concurrency_co.Redis.Commands
use kltn_high_concurrency_co.Redis.Commands.{insert_scored, score_of, rank_of, without, rest}
use kltn_high_concurrency_co.Redis.{Redis}
use kltn_high_concurrency_co.Queue.Adapter.{schema, seq_key, join}
use kltn_high_concurrency_co.Queue.Spec.{Rooms, waiting, users, next_seq, join_spec, join-refines}

-- The scores of a queue are below the next one, and the counter never expires.
pub record IsQueue (e : EventId) (w : Rooms) : Type 0 where
  pub bounded : All (λ p. p.0 < next_seq e w) (waiting e w)
  pub persistent : Commands.left_of schema (seq_key e) w ≡ none

insert_scored-last :
    (n : ℕ) (m : UserId) (q : List (ℕ × UserId))
    → All (λ p. p.0 < n) q
    → insert_scored n m q ≡ q ++ (n, m) ∷ []
insert_scored-last n m [] h = refl
insert_scored-last n m ((i, a) ∷ q) h =
    let later : (ltb n i || (n == i && ltb m a)) ≡ false = ground arith in
    rw (later, insert_scored-last n m q h.1) refl

without-absent : (u : UserId) (q : List (ℕ × UserId)) → score_of u q ≡ none → without u q ≡ q
without-absent u [] h = refl
without-absent u ((i, a) ∷ q) h = ground (arith, without-absent u q)

rank_of-last :
    (u : UserId) (n : ℕ) (q : List (ℕ × UserId))
    → score_of u q ≡ none
    → rank_of u (q ++ (n, u) ∷ []) ≡ some (length q)
rank_of-last u n [] h = rw (==_refl u) refl
rank_of-last u n ((i, a) ∷ q) h = ground (arith, rank_of-last u n q)

users-append :
    (q : List (ℕ × UserId)) (n : ℕ) (u : UserId) → users (q ++ (n, u) ∷ []) ≡ users q ++ u ∷ []
users-append [] n u = refl
users-append ((i, a) ∷ q) n u = ap (◌∷◌ a) (users-append q n u)

-- the queue after a new user has joined
pub waiting-join_spec :
    (e : EventId) (u : UserId) (w : Rooms)
    → IsQueue e w
    → score_of u (waiting e w) ≡ none
    → waiting e (join_spec e u w) ≡ waiting e w ++ (next_seq e w, u) ∷ []
unfolding join_spec
waiting-join_spec e u w v new =
    rw (new, join_spec, ==_refl e, without-absent u (waiting e w) new)
      (insert_scored-last (next_seq e w) u (waiting e w) v.bounded)

-- A user who does not wait yet goes behind everybody who waits, and is answered the number of those
-- before as the rank, on every server whose queue has its scores below the counter.
pub join-new :
    (R : Redis schema) (e : EventId) (u : UserId) (s : R.State)
    → IsQueue e (R.view s)
    → score_of u (waiting e (R.view s)) ≡ none
    → (users (waiting e (R.view (join R e u s).1)) ≡ users (waiting e (R.view s)) ++ u ∷ [])
      × ((join R e u s).0
          ≡ ok (record {
            rank = length (waiting e (R.view s));
            total = length (waiting e (R.view s)) + 1;
          }))
join-new R e u s v new =
    let w = R.view s in
    let (left, answer) = join-refines R e u s in
    let queue = waiting-join_spec e u w v new in
    (
      rw (left, queue) (users-append (waiting e w) (next_seq e w) u),
      answer
          ∙ rw
              (
                queue,
                rank_of-last u (next_seq e w) (waiting e w) new,
                length-append (waiting e w) ((next_seq e w, u) ∷ []),
              )
              refl,
    )

score-rank :
    (u : UserId) (n : ℕ) (q : List (ℕ × UserId))
    → score_of u q ≡ some n
    → (r : ℕ) × (rank_of u q ≡ some r) × (get_elem? (users q) r ≡ some u)
score-rank u n [] h = cc
score-rank u n ((i, a) ∷ q) h = elim (Bool-cases (u == a)) [
  | inl here ↦ (0, rw here refl, ap some (sym (==→eq u a here)))
  | inr there ↦ let (r, x, y) = score-rank u n q (ground arith) in (suc r, rw (there, x) refl, y)
]

-- A user who waits already keeps the place, and so does everybody: a second `join` changes no key, and
-- answers the place that the user has.
pub join-again :
    (R : Redis schema) (e : EventId) (u : UserId) (s : R.State) (n : ℕ)
    → score_of u (waiting e (R.view s)) ≡ some n
    → (R.view (join R e u s).1 ≡ R.view s)
      × ((r : ℕ) × (get_elem? (users (waiting e (R.view s))) r ≡ some u)
          × ((join R e u s).0 ≡ ok (record { rank = r; total = length (waiting e (R.view s)) })))
join-again R e u s n old =
    let (left, answer) = join-refines R e u s in
    let same : join_spec e u (R.view s) ≡ R.view s = unfold join_spec in rw (old, join_spec) refl in
    let (r, x, y) = score-rank u n (waiting e (R.view s)) old in
    (left ∙ same, (r, y, answer ∙ rw (same, x) refl))

pub All-rest : (n : ℕ) (q : List (ℕ × UserId)) → All (λ p. p.0 < n) q → All (λ p. p.0 < n) (rest q)
All-rest n [] h = tt
All-rest n (p ∷ q) h = h.1

pub All-later :
    (n k : ℕ) (u : UserId) (q : List (ℕ × UserId))
    → k < n
    → All (λ p. p.0 < k) q
    → All (λ p. p.0 < n) (q ++ (k, u) ∷ [])
All-later n k u [] l h = (l, tt)
All-later n k u (p ∷ q) l h = (omega arith, All-later n k u q l h.1)
