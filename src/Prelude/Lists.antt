-- ===== src/Prelude/Lists.antt =====
-- Lists with native lengths, Boolean membership of identifiers, and a pigeonhole lemma.
use Prim.Native.Nat.{ℕ, zero, suc, ◌+◌, ◌≤◌}
use mathlib.Core.Path.{◌≡◌, refl}
use mathlib.Core.Bool.{Bool, true, false, ◌||◌}
use mathlib.Core.Option.{Option, none, some}
use mathlib.Core.List.{List, [], ◌∷◌, ◌++◌}
use native.Mathlib.Omega.{arith}
use kltn_high_concurrency_co.Prelude.Tests.{◌==◌, if◌then◌else◌}

-- an element of a list
pub data IsIn {ℓ} {A : Type ℓ} (a : A) : List A → Type ℓ where
  here : {xs : List A} → IsIn a (a ∷ xs)
  there : {x : A} {xs : List A} → IsIn a xs → IsIn a (x ∷ xs)

module _ {ℓ} {A : Type ℓ} where
  abbrev pub length : List A → ℕ
  length [] = 0
  length (x ∷ xs) = suc (length xs)

  abbrev pub get_elem? : List A → ℕ → Option A
  get_elem? [] i = none
  get_elem? (x ∷ xs) zero = some x
  get_elem? (x ∷ xs) (suc i) = get_elem? xs i

  abbrev pub All {κ} : (A → Type κ) → List A → Type κ
  All P [] = Unit
  All P (x ∷ xs) = P x × All P xs

  pub IsIn-left : (a : A) (xs ys : List A) → IsIn a xs → IsIn a (xs ++ ys)
  IsIn-left a [] ys h = elim h [ ]
  IsIn-left a (x ∷ xs) ys here = here
  IsIn-left a (x ∷ xs) ys (there h) = there (IsIn-left a xs ys h)

  pub IsIn-right : (a : A) (xs ys : List A) → IsIn a ys → IsIn a (xs ++ ys)
  IsIn-right a [] ys h = h
  IsIn-right a (x ∷ xs) ys h = there (IsIn-right a xs ys h)

  pub length-append : (xs ys : List A) → length (xs ++ ys) ≡ length xs + length ys
  length-append [] ys = omega arith
  length-append (x ∷ xs) ys = omega (arith, length-append xs ys)

-- Membership of an identifier.
unfoldable pub mem : ℕ → List ℕ → Bool
mem a [] = false
mem a (x ∷ xs) = (a == x) || mem a xs

-- One occurrence taken out.
unfoldable pub erase : ℕ → List ℕ → List ℕ
erase a [] = []
erase a (x ∷ xs) = if a == x then xs else x ∷ erase a xs

-- No identifier occurs twice.
abbrev pub Distinct : List ℕ → Type 0
Distinct [] = Unit
Distinct (x ∷ xs) = (mem x xs ≡ false) × Distinct xs

pub mem-erase_ne : (a b : ℕ) (xs : List ℕ) → (a == b) ≡ false → mem a (erase b xs) ≡ mem a xs
unfolding mem erase
mem-erase_ne a b [] h = refl
mem-erase_ne a b (x ∷ xs) h = ground (arith, mem-erase_ne a b xs h)

pub mem-erase_self : (a : ℕ) (xs : List ℕ) → Distinct xs → mem a (erase a xs) ≡ false
unfolding mem erase
mem-erase_self a [] d = refl
mem-erase_self a (x ∷ xs) d = ground (arith, mem-erase_self a xs d.1)

pub erase-Distinct : (a : ℕ) (xs : List ℕ) → Distinct xs → Distinct (erase a xs)
unfolding mem erase
erase-Distinct a [] d = tt
erase-Distinct a (x ∷ xs) d = ground (arith, erase-Distinct a xs d.1, mem-erase_ne x a xs)

pub length-erase : (a : ℕ) (xs : List ℕ) → mem a xs ≡ true → length (erase a xs) + 1 ≡ length xs
unfolding mem erase
length-erase a [] h = cc
length-erase a (x ∷ xs) h = ground (arith, length-erase a xs)

pub length-erase-le : (a : ℕ) (xs : List ℕ) → length (erase a xs) ≤ length xs
unfolding erase
length-erase-le a [] = omega arith
length-erase-le a (x ∷ xs) = ground (arith, length-erase-le a xs)

erase_keeps_others :
    (x : ℕ) (xs ys : List ℕ)
    → mem x xs ≡ false
    → All (λ a. mem a ys ≡ true) xs
    → All (λ a. mem a (erase x ys) ≡ true) xs
unfolding mem
erase_keeps_others x [] ys h all = tt
erase_keeps_others x (a ∷ xs) ys h all =
    ground (arith, mem-erase_ne a x ys, erase_keeps_others x xs ys)

-- Pigeonhole: distinct members of a list are no more than its length.
pub length-le_of_All-mem :
    (xs ys : List ℕ) → Distinct xs → All (λ a. mem a ys ≡ true) xs → length xs ≤ length ys
length-le_of_All-mem [] ys d all = omega arith
length-le_of_All-mem (x ∷ xs) ys d all = omega (
  arith,
  length-erase x ys all.0,
  length-le_of_All-mem xs (erase x ys) d.1 (erase_keeps_others x xs ys d.0 all.1),
)
