-- ===== src/Prelude/Rows.antt =====
-- Queries over the rows of a table.
use mathlib.Core.Bool.{Bool, true, false}
use mathlib.Core.Option.{Option, none, some}
use mathlib.Core.Path.{◌≡◌, refl, subst}
use mathlib.Core.List.{List, [], ◌∷◌}
use Prim.Native.Nat.{ℕ, suc}
use native.Mathlib.Omega.{arith}
use kltn_high_concurrency_co.Prelude.Tests.{if◌then◌else◌, leb, Bool-cases}
use mathlib.Core.Logic.{inl, inr}
use kltn_high_concurrency_co.Prelude.Lists.{All}

module _ {ℓ} {A : Type ℓ} where
  unfoldable pub find : (A → Bool) → List A → Option A
  find p [] = none
  find p (x ∷ xs) = if p x then some x else find p xs

  unfoldable pub select : (A → Bool) → List A → List A
  select p [] = []
  select p (x ∷ xs) = let rest = select p xs in if p x then x ∷ rest else rest

  unfoldable pub any : (A → Bool) → List A → Bool
  any p [] = false
  any p (x ∷ xs) = if p x then true else any p xs

  unfoldable pub count : (A → Bool) → List A → ℕ
  count p [] = 0
  count p (x ∷ xs) = let rest = count p xs in if p x then suc rest else rest

  -- every row that fits, changed
  unfoldable pub revise : (A → Bool) → (A → A) → List A → List A
  revise p f [] = []
  revise p f (x ∷ xs) = (if p x then f x else x) ∷ revise p f xs

  abbrev later : (A → ℕ) → A → Option A → Option A
  later key x none = some x
  later key x (some y) = if leb (key y) (key x) then some x else some y

  -- the row that fits with the greatest key
  unfoldable pub latest : (A → Bool) → (A → ℕ) → List A → Option A
  latest p key [] = none
  latest p key (x ∷ xs) = let rest = latest p key xs in if p x then later key x rest else rest

  -- what a query returns fits
  pub find-fits : (p : A → Bool) (xs : List A) (x : A) → find p xs ≡ some x → p x ≡ true
  unfolding find
  find-fits p [] x e = cc
  find-fits p (y ∷ xs) x e = ground (arith, find-fits p xs x)

  pub find-none : (p : A → Bool) (xs : List A) → find p xs ≡ none → any p xs ≡ false
  unfolding find any
  find-none p [] h = refl
  find-none p (x ∷ xs) h = ground (arith, h, find-none p xs)

  -- what is found of changed rows is changed
  pub find-revise-All {κ} :
      (Q : A → Type κ) (p : A → Bool) (f : A → A) (xs : List A) (y : A)
      → ((x : A) → Q (f x))
      → find p (revise p f xs) ≡ some y
      → ((x : A) → p x ≡ true → p (f x) ≡ true)
      → Q y
  unfolding find revise
  find-revise-All Q p f [] y q e keeps = absurd (ground (arith, e))
  find-revise-All Q p f (x ∷ xs) y q e keeps = elim (Bool-cases (p x)) [
    | inl fits ↦ let same : f x ≡ y = ground (arith, e, fits, keeps x fits) in subst Q same (q x)
    | inr other ↦ find-revise-All Q p f xs y q (ground (arith, e, other)) keeps
  ]

  pub select-fits : (p : A → Bool) (xs : List A) → All (λ x. p x ≡ true) (select p xs)
  unfolding select
  select-fits p [] = tt
  select-fits p (x ∷ xs) = elim (Bool-cases (p x)) [
    | inl fits ↦ rw (select, fits) (fits, select-fits p xs)
    | inr other ↦ rw (select, other) (select-fits p xs)
  ]

  pub latest-fits :
      (p : A → Bool) (key : A → ℕ) (xs : List A) (x : A) → latest p key xs ≡ some x → p x ≡ true
  unfolding latest
  latest-fits p key [] x e = cc
  latest-fits p key (y ∷ xs) x e = ground (arith, latest-fits p key xs x)

  -- what no row fits changes no row
  pub revise_none : (p : A → Bool) (f : A → A) (xs : List A) → any p xs ≡ false → revise p f xs ≡ xs
  unfolding any revise
  revise_none p f [] h = refl
  revise_none p f (x ∷ xs) h = ground (arith, revise_none p f xs)

  pub count_none : (p : A → Bool) (xs : List A) → any p xs ≡ false → count p xs ≡ 0
  unfolding any count
  count_none p [] h = refl
  count_none p (x ∷ xs) h = ground (arith, count_none p xs)

  -- a change after which a row does not fit leaves no row that fits
  pub any-revise :
      (p : A → Bool) (f : A → A) (xs : List A)
      → ((x : A) → p (f x) ≡ false)
      → any p (revise p f xs) ≡ false
  unfolding any revise
  any-revise p f [] h = refl
  any-revise p f (x ∷ xs) h = elim (Bool-cases (p x)) [
    | inl fits ↦ ground (arith, h x, any-revise p f xs h)
    | inr other ↦ ground (arith, any-revise p f xs h)
  ]
