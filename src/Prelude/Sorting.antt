-- ===== src/Prelude/Sorting.antt =====
-- Lists that stand in the order of a test of two elements, and a sort.
use mathlib.Core.Path.{◌≡◌}
use mathlib.Core.Logic.{◌⊎◌, inl, inr}
use mathlib.Core.Bool.{Bool, true}
use mathlib.Core.List.{List, [], ◌∷◌, Perm}
use mathlib.Core.List.Perm
use native.Mathlib.Omega.{arith}
use kltn_high_concurrency_co.Prelude.Tests.{Bool-cases, if◌then◌else◌}
use kltn_high_concurrency_co.Prelude.Lists.{All}

-- Any two elements may stand in one of the two orders, and what may stand before may be chained.
pub record IsOrder {A : Type 0} (before : A → A → Bool) : Type 0 where
  pub total : (x y : A) → (before x y ≡ true) ⊎ (before y x ≡ true)
  pub trans : (x y z : A) → before x y ≡ true → before y z ≡ true → before x z ≡ true

abbrev pub IsSorted : {A : Type 0} → (A → A → Bool) → List A → Type 0
IsSorted before [] = Unit {0}
IsSorted before (x ∷ xs) = All (λ y. before x y ≡ true) xs × IsSorted before xs

module _ {A : Type 0} (before : A → A → Bool) where
  unfoldable pub insert_sorted : A → List A → List A
  insert_sorted x [] = x ∷ []
  insert_sorted x (y ∷ ys) =
      let rest = insert_sorted x ys in if before x y then x ∷ y ∷ ys else y ∷ rest

  unfoldable pub sort : List A → List A
  sort [] = []
  sort (x ∷ xs) = insert_sorted x (sort xs)

  insert_sorted-perm : (x : A) (xs : List A) → Perm (insert_sorted x xs) (x ∷ xs)
  unfolding insert_sorted
  insert_sorted-perm x [] = Perm.refl (x ∷ [])
  insert_sorted-perm x (y ∷ ys) = elim (Bool-cases (before x y)) [
    | inl first ↦ rw (insert_sorted, first) (Perm.refl (x ∷ y ∷ ys))
    | inr later ↦
        rw (insert_sorted, later)
          (Perm.trans (Perm.cons y (insert_sorted-perm x ys)) (Perm.swap x y ys))
  ]

  pub sort-perm : (xs : List A) → Perm (sort xs) xs
  unfolding sort
  sort-perm [] = Perm.refl []
  sort-perm (x ∷ xs) = Perm.trans (insert_sorted-perm x (sort xs)) (Perm.cons x (sort-perm xs))

  insert_sorted-All :
      (P : A → Type 0) (x : A) (xs : List A) → P x → All P xs → All P (insert_sorted x xs)
  unfolding insert_sorted
  insert_sorted-All P x [] here h = (here, tt)
  insert_sorted-All P x (y ∷ ys) here h = elim (Bool-cases (before x y)) [
    | inl first ↦ rw (insert_sorted, first) (here, h)
    | inr later ↦ rw (insert_sorted, later) (h.0, insert_sorted-All P x ys here h.1)
  ]

  module _ (order : IsOrder before) where
    All-before :
        (x y : A) (ys : List A)
        → before x y ≡ true
        → All (λ z. before y z ≡ true) ys
        → All (λ z. before x z ≡ true) ys
    All-before x y [] first h = tt
    All-before x y (z ∷ zs) first h = (order.trans x y z first h.0, All-before x y zs first h.1)

    insert_sorted-IsSorted :
        (x : A) (xs : List A) → IsSorted before xs → IsSorted before (insert_sorted x xs)
    unfolding insert_sorted
    insert_sorted-IsSorted x [] h = (tt, tt)
    insert_sorted-IsSorted x (y ∷ ys) h = elim (Bool-cases (before x y)) [
      | inl first ↦ rw (insert_sorted, first) ((first, All-before x y ys first h.0), h)
      | inr later ↦
          let turned : before y x ≡ true = elim (order.total x y) [
            | inl e ↦ absurd (ground (arith, e, later))
            | inr e ↦ e
          ] in
          rw (insert_sorted, later)
            (
              insert_sorted-All (λ z. before y z ≡ true) x ys turned h.0,
              insert_sorted-IsSorted x ys h.1,
            )
    ]

    pub sort-IsSorted : (xs : List A) → IsSorted before (sort xs)
    unfolding sort
    sort-IsSorted [] = tt
    sort-IsSorted (x ∷ xs) = insert_sorted-IsSorted x (sort xs) (sort-IsSorted xs)
