-- ===== src/Prelude/Growth.antt =====
-- Histories of a table: the rows that were there stand in a relation to what became of them, and
-- the new rows come behind them.
use mathlib.Core.Bool.{Bool, true, false}
use mathlib.Core.Option.{some}
use mathlib.Core.Path.{◌≡◌, sym, subst}
use mathlib.Core.Logic.{inl, inr}
use mathlib.Core.List.{List, [], ◌∷◌, ◌++◌}
use Prim.Native.Nat.{ℕ}
use native.Mathlib.Omega.{arith}
use kltn_high_concurrency_co.Prelude.Tests.{◌==◌, Bool-cases, ==→eq}
use kltn_high_concurrency_co.Prelude.Rows.{find, any, revise, revise_none}
use kltn_high_concurrency_co.Prelude.Keys.{HasKeys, find-absent}

module _ {A : Type 0} (key : A → ℕ) (R : A → A → Type 0) (stays : (x : A) → R x x) where
  -- The rows stand in the relation, one by one, and new ones satisfy `Q`.
  abbrev pub Grown : (A → Type 0) → List A → List A → Type 0
  Grown Q [] [] = Unit
  Grown Q [] (y ∷ ys) = Q y × Grown Q [] ys
  Grown Q (x ∷ xs) [] = ⊥
  Grown Q (x ∷ xs) (y ∷ ys) = R x y × Grown Q xs ys

  module _ (Q : A → Type 0) where
    pub Grown-refl : (xs : List A) → Grown Q xs xs
    Grown-refl [] = tt
    Grown-refl (x ∷ xs) = (stays x, Grown-refl xs)

    pub Grown-append : (xs : List A) (y : A) → Q y → Grown Q xs (xs ++ y ∷ [])
    Grown-append [] y q = (q, tt)
    Grown-append (x ∷ xs) y q = (stays x, Grown-append xs y q)

    pub Grown-trans :
        ((x y z : A) → R x y → R y z → R x z)
        → ((x y : A) → Q x → R x y → Q y)
        → (xs ys zs : List A) → Grown Q xs ys
        → Grown Q ys zs
        → Grown Q xs zs
    Grown-trans trans keep [] [] zs g h = h
    Grown-trans trans keep [] (y ∷ ys) [] g h = absurd h
    Grown-trans trans keep [] (y ∷ ys) (z ∷ zs) g h =
        (keep y z g.0 h.0, Grown-trans trans keep [] ys zs g.1 h.1)
    Grown-trans trans keep (x ∷ xs) [] zs g h = absurd g
    Grown-trans trans keep (x ∷ xs) (y ∷ ys) [] g h = absurd h
    Grown-trans trans keep (x ∷ xs) (y ∷ ys) (z ∷ zs) g h =
        (trans x y z g.0 h.0, Grown-trans trans keep xs ys zs g.1 h.1)

    pub Grown-revise :
        (k : ℕ) (p : A → Bool) (f : A → A) (found : A) (xs : List A)
        → ((x : A) → p x ≡ true → (key x == k) ≡ true)
        → HasKeys key xs
        → find p xs ≡ some found
        → R found (f found)
        → Grown Q xs (revise (λ x. key x == k) f xs)
    unfolding find revise
    Grown-revise k p f found [] fits h e r = tt
    Grown-revise k p f found (x ∷ xs) fits h e r = elim (Bool-cases (key x == k)) [
      | inl same ↦
          let alone : any (λ y. key y == k) xs ≡ false =
            subst (λ m. any (λ y. key y == m) xs ≡ false) (==→eq (key x) k same) h.0 in
          elim (Bool-cases (p x)) [
            | inl hit ↦
                let here : x ≡ found = ground (arith, hit, e) in
                rw (revise, same, revise_none (λ y. key y == k) f xs alone)
                  (subst (λ z. R z (f z)) (sym here) r, Grown-refl xs)
            | inr miss ↦ absurd (ground (arith, find-absent key k p xs fits alone, e, miss))
          ]
      | inr other ↦
          let later : find p xs ≡ some found = ground (arith, fits x, e, other) in
          rw (revise, other) (stays x, Grown-revise k p f found xs fits h.1 later r)
    ]
