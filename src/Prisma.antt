-- ===== src/Prisma.antt =====
-- The database behind prisma/prisma.service.ts, which is not part of the repository: a table is a
-- parameter, `Table`, whose laws are the documented effect of the Prisma calls that the program
-- makes on the rows that a query can see. Any write may be rejected; reads are taken to succeed.
pub mod Reference
pub mod Single
use kltn_high_concurrency_co.Prelude.{
  ℕ, ◌≡◌, refl, ◌⊎◌, inl, inr, Bool, true, false, Option, some, List, [], ◌∷◌, ◌++◌, find, select,
  any, count, revise, latest, if◌then◌else◌, All, Perm, IsOrder, IsSorted, length, ◌≤◌,
}

-- A write is done, hits a unique constraint (P2002), or is rejected for another reason.
pub data Write (S : Type 0) : Type 0 where
  done : S → Write S
  p2002 : Write S
  rejected : Write S

pub Write-cases :
    {S : Type 0} (w : Write S) → ((t : S) × (w ≡ done t)) ⊎ (w ≡ p2002) ⊎ (w ≡ rejected)
Write-cases (done t) = inl (t, refl)
Write-cases p2002 = inr (inl refl)
Write-cases rejected = inr (inr refl)

-- The rows stand in the order in which the database returns them; `clash` is the table's unique
-- constraint.
pub record Table (Row : Type 0) (clash : Row → Row → Bool) : Type 1 where
  pub State : Type 0
  pub rows : State → List Row
  pub find_first : (Row → Bool) → State → Option Row
  pub find_latest : (Row → Bool) → (Row → ℕ) → State → Option Row
  pub find_many : (Row → Bool) → State → List Row
  -- `findMany` with `orderBy`, `skip` and `take`; the order of the rows is not part of the laws
  pub find_page : (Row → Bool) → (Row → ℕ) → ℕ → ℕ → State → List Row
  -- `findMany` with `orderBy`: what the test says may stand first; rows that may stand in both orders come in any
  pub find_sorted : (Row → Bool) → (Row → Row → Bool) → State → List Row
  pub count_rows : (Row → Bool) → State → ℕ
  pub create : Row → State → Write State
  pub create_many : List Row → State → Option State
  pub update_many : (Row → Bool) → (Row → Row) → State → Option (ℕ × State)
  pub delete_many : (Row → Bool) → State → Option State
  pub commit : State → Option State
  pub find_first_lem : (p : Row → Bool) (s : State) → find_first p s ≡ find p (rows s)
  pub find_latest_lem :
      (p : Row → Bool) (key : Row → ℕ) (s : State) → find_latest p key s ≡ latest p key (rows s)
  pub find_many_lem : (p : Row → Bool) (s : State) → find_many p s ≡ select p (rows s)
  pub find_page_lem :
      (p : Row → Bool) (key : Row → ℕ) (skip take : ℕ) (s : State)
      → All (λ r. p r ≡ true) (find_page p key skip take s)
        × (length (find_page p key skip take s) ≤ take)
  pub find_sorted_lem :
      (p : Row → Bool) (before : Row → Row → Bool) (s : State)
      → Perm (find_sorted p before s) (select p (rows s))
  pub find_sorted_order :
      (p : Row → Bool) (before : Row → Row → Bool) (s : State)
      → IsOrder before
      → IsSorted before (find_sorted p before s)
  pub count_rows_lem : (p : Row → Bool) (s : State) → count_rows p s ≡ count p (rows s)
  pub create_done :
      (r : Row) (s t : State)
      → create r s ≡ done t
      → (rows t ≡ rows s ++ r ∷ []) × (any (clash r) (rows s) ≡ false)
  pub create_p2002 : (r : Row) (s : State) → create r s ≡ p2002 → any (clash r) (rows s) ≡ true
  pub create_many_done :
      (rs : List Row) (s t : State) → create_many rs s ≡ some t → rows t ≡ rows s ++ rs
  pub update_many_done :
      (p : Row → Bool) (f : Row → Row) (s t : State) (n : ℕ)
      → update_many p f s ≡ some (n, t)
      → (rows t ≡ revise p f (rows s)) × (n ≡ count p (rows s))
  pub delete_many_done :
      (p : Row → Bool) (s t : State)
      → delete_many p s ≡ some t
      → rows t ≡ select (λ r. if p r then false else true) (rows s)
  pub commit_done : (s t : State) → commit s ≡ some t → rows t ≡ rows s
