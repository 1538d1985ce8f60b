-- ===== src/Prelude/Keys.antt =====
-- Tables whose rows have a key of their own, and changes by key.
use mathlib.Core.Bool.{Bool, true, false}
use mathlib.Core.Option.{none}
use mathlib.Core.Path.{◌≡◌, refl}
use mathlib.Core.Logic.{inl, inr}
use mathlib.Core.List.{List, [], ◌∷◌, ◌++◌}
use Prim.Native.Nat.{ℕ}
use native.Mathlib.Omega.{arith}
use kltn_high_concurrency_co.Prelude.Tests.{◌==◌, Bool-cases}
use kltn_high_concurrency_co.Prelude.Rows.{find, any, revise}

module _ {ℓ} {A : Type ℓ} (key : A → ℕ) where
  -- No two rows have the same key.
  abbrev pub HasKeys : List A → Type 0
  HasKeys [] = Unit
  HasKeys (x ∷ xs) = (any (λ y. key y == key x) xs ≡ false) × HasKeys xs

  any_key-append :
      (k : ℕ) (xs : List A) (y : A)
      → any (λ z. key z == k) xs ≡ false
      → (key y == k) ≡ false
      → any (λ z. key z == k) (xs ++ y ∷ []) ≡ false
  unfolding any
  any_key-append k [] y h n = rw n
  any_key-append k (x ∷ xs) y h n = ground (arith, any_key-append k xs y)

  -- A row with a new key can be added.
  pub HasKeys-append :
      (xs : List A) (y : A)
      → HasKeys xs
      → any (λ z. key y == key z) xs ≡ false
      → HasKeys (xs ++ y ∷ [])
  unfolding any
  HasKeys-append [] y h new = (refl, tt)
  HasKeys-append (x ∷ xs) y h new =
      (any_key-append (key x) xs y h.0 (ground arith), HasKeys-append xs y h.1 (ground arith))

  any_key-revise :
      (k : ℕ) (p : A → Bool) (f : A → A) (xs : List A)
      → ((x : A) → key (f x) ≡ key x)
      → any (λ z. key z == k) (revise p f xs) ≡ any (λ z. key z == k) xs
  unfolding any revise
  any_key-revise k p f [] same = refl
  any_key-revise k p f (x ∷ xs) same = ground (arith, same x, any_key-revise k p f xs same)

  -- A change that leaves the keys alone.
  pub HasKeys-revise :
      (p : A → Bool) (f : A → A) (xs : List A)
      → ((x : A) → key (f x) ≡ key x)
      → HasKeys xs
      → HasKeys (revise p f xs)
  unfolding any revise
  HasKeys-revise p f [] same h = tt
  HasKeys-revise p f (x ∷ xs) same h = ground (
    arith,
    same x,
    any_key-revise (key x) p f xs same,
    any_key-revise (key (f x)) p f xs same,
    HasKeys-revise p f xs same h.1,
  )

  -- A row that is found by a test that asks for its key is the one row with the key.
  pub find-absent :
      (k : ℕ) (p : A → Bool) (xs : List A)
      → ((x : A) → p x ≡ true → (key x == k) ≡ true)
      → any (λ z. key z == k) xs ≡ false
      → find p xs ≡ none
  unfolding any find
  find-absent k p [] fits h = refl
  find-absent k p (x ∷ xs) fits h = elim (Bool-cases (p x)) [
    | inl yes' ↦ ground (arith, fits x yes')
    | inr no' ↦ ground (arith, find-absent k p xs fits)
  ]
