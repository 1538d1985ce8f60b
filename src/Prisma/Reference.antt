-- ===== src/Prisma/Reference.antt =====
-- A database that accepts every write that its constraint allows, and one that rejects every
-- write: the laws of `Table` can be met by both.
use kltn_high_concurrency_co.Prelude.{
  ℕ, ◌≡◌, refl, Bool, true, false, Option, some, List, [], ◌∷◌, ◌++◌, find, select, any, count,
  revise, latest, sort, sort-perm, sort-IsSorted, if◌then◌else◌, arith, zero, suc, All, length, ◌≤◌,
  select-fits,
}
use kltn_high_concurrency_co.Prisma.{Write, done, p2002, Table}

abbrev pub page : {A : Type 0} → ℕ → ℕ → List A → List A
page skip zero xs = []
page skip (suc take) [] = []
page zero (suc take) (x ∷ xs) = x ∷ page zero take xs
page (suc skip) (suc take) (x ∷ xs) = page skip (suc take) xs

pub page-All :
    {A : Type 0} (P : A → Type 0) (skip take : ℕ) (xs : List A)
    → All P xs
    → All P (page skip take xs)
page-All P skip zero xs h = tt
page-All P skip (suc take) [] h = tt
page-All P zero (suc take) (x ∷ xs) h = (h.0, page-All P zero take xs h.1)
page-All P (suc skip) (suc take) (x ∷ xs) h = page-All P skip (suc take) xs h.1

pub length-page : {A : Type 0} (skip take : ℕ) (xs : List A) → length (page skip take xs) ≤ take
length-page skip zero xs = omega arith
length-page skip (suc take) [] = omega arith
length-page zero (suc take) (x ∷ xs) = omega (arith, length-page zero take xs)
length-page (suc skip) (suc take) (x ∷ xs) = length-page skip (suc take) xs

module _ (Row : Type 0) (clash : Row → Row → Bool) where
  abbrev insert : Row → List Row → Write (List Row)
  insert r s = if any (clash r) s then p2002 else done (s ++ r ∷ [])

  pub insert-done :
      (r : Row) (s t : List Row)
      → insert r s ≡ done t
      → (t ≡ s ++ r ∷ []) × (any (clash r) s ≡ false)
  insert-done r s t e = ground arith

  pub insert-p2002 : (r : Row) (s : List Row) → insert r s ≡ p2002 → any (clash r) s ≡ true
  insert-p2002 r s e = ground arith

  pub update-done :
      (n m : ℕ) (s t : List Row)
      → ◌≡◌ {A = Option (ℕ × List Row)} (some (n, s)) (some (m, t))
      → (t ≡ s) × (m ≡ n)
  update-done n m s t e = ground arith

  pub state-done : (s t : List Row) → some s ≡ some t → t ≡ s
  state-done s t e = ground arith

  abbrev pub reference : Table Row clash
  reference = record {
    State = List Row;
    rows = λ s. s;
    find_first = find;
    find_latest = latest;
    find_many = select;
    find_page = λ p key skip take s. page skip take (select p s);
    find_sorted = λ p before s. sort before (select p s);
    count_rows = count;
    create = insert;
    create_many = λ rs s. some (s ++ rs);
    update_many = λ p f s. some (count p s, revise p f s);
    delete_many = λ p s. some (select (λ r. if p r then false else true) s);
    commit = some;
    find_first_lem = λ p s. refl;
    find_latest_lem = λ p key s. refl;
    find_many_lem = λ p s. refl;
    find_page_lem = λ p key skip take s. (
      page-All (λ r. p r ≡ true) skip take (select p s) (select-fits p s),
      length-page skip take (select p s),
    );
    find_sorted_lem = λ p before s. sort-perm before (select p s);
    find_sorted_order = λ p before s order. sort-IsSorted before order (select p s);
    count_rows_lem = λ p s. refl;
    create_done = insert-done;
    create_p2002 = insert-p2002;
    create_many_done = λ rs s t e. state-done (s ++ rs) t e;
    update_many_done = λ p f s t n e. update-done (count p s) n (revise p f s) t e;
    delete_many_done = λ p s t e. state-done (select (λ r. if p r then false else true) s) t e;
    commit_done = λ s t e. state-done s t e;
  }
